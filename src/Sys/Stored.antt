-- ===== src/Sys/Stored.antt =====
-- What a program writes to a file and reads back, by way of the kernel's buffer.
