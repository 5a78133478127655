-- ===== src/Sys/Ends.antt =====
-- The loops of `sys_write_file` and `sys_read_file` of devices.c end, whatever the file system
-- does.
