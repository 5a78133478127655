-- ===== src/Fat/Write.antt =====
-- `fat_write` of fat.c: which bytes of which blocks it changes.
use native.Mathlib.Nat.{zero-add}
use s.Base.{
  ℕ, ◌+◌, ◌*◌, ◌<◌, ◌≤◌, ◌≡◌, refl, ◌≢◌, false, List, [], ◌∷◌, ◌++◌, ℤ, pos, minus, arith, ◌==◌,
  ltb, if◌then◌else◌, length, length-append, ap, sym, ◌∙◌, Bool-cases, inl, inr, update,
  update_self, update_ne, max, append_assoc, append-nil,
}
use s.ListHead.Links.{has, Distinct, has-append}
use s.Utils.Copy.{spliced, spliced-join}
use s.Fat.{Fat, eoc, enospc, max_files, block_size, fat_translate_block, fat_add_block}
use s.Fat.Calls.{write_block}
use s.Fat.Chain.{IsValid, translate-block_at, block_at}
use s.Fat.Grow.{grown, Added, full, added, fat_add_block-Added}
use s.Fat.Bytes.{
  nth, block_at-end, byte_at, block_at-nth, nth-snoc, nth-append, nth-has, write-bytes,
}
use s.Fat.Round.{wrote, round-own, round-others, round-root, round-IsValid}

-- What a write into file `f` of `n` bytes of `p`, from `s` on, at the place `at` of the file
-- leaves: the file may have got more blocks, which were the first free ones.
pub record Wrote (fs : Fat) (chain : ℕ → List ℕ) (free : List ℕ) (f : ℕ) (p : ℕ → ℕ) (s at n : ℕ)
    (fs' : Fat) (chain' : ℕ → List ℕ) (free' : List ℕ) : Type 0 where
  pub taken : List ℕ
  pub valid : IsValid fs' chain' free'
  pub grows : chain' f ≡ chain f ++ taken
  pub others : (g : ℕ) → g ≢ f → chain' g ≡ chain g
  pub uses : free ≡ taken ++ free'
  pub bytes :
      (ys : List ℕ) (i : ℕ)
      → Distinct (chain' f ++ ys)
      → i < block_size * length (chain' f ++ ys)
      → byte_at fs'.contents (chain' f ++ ys) i
        ≡ spliced p s (byte_at fs.contents (chain' f ++ ys)) at n i
  pub kept : (b j : ℕ) → has b (chain' f) ≡ false → fs'.contents b j ≡ fs.contents b j
  pub names :
      (g : ℕ)
      → ((fs'.root g).name ≡ (fs.root g).name)
        × ((fs'.root g).mode ≡ (fs.root g).mode)
        × (g ≢ f → (fs'.root g).size ≡ (fs.root g).size)
  pub size :
      (fs'.root f).size ≡ (if n == 0 then (fs.root f).size else max (fs.root f).size (at + n))

-- A write of nothing.
pub Wrote-none :
    (fs : Fat) (chain : ℕ → List ℕ) (free : List ℕ) (f : ℕ) (p : ℕ → ℕ) (s at : ℕ)
    → IsValid fs chain free
    → Wrote fs chain free f p s at 0 fs chain free
Wrote-none fs chain free f p s at v = record {
  taken = [];
  valid = v;
  grows = sym (append-nil (chain f));
  others = λ g ne. refl;
  uses = refl;
  bytes = λ ys i d lt. ground arith;
  kept = λ b j o. refl;
  names = λ g. (refl, refl, λ ne. refl);
  size = refl;
}

-- A write that goes on where another one ended.
pub Wrote-join :
    {fs t u : Fat} {chain chain' chain'' : ℕ → List ℕ} {free free' free'' : List ℕ} (f : ℕ)
    (p : ℕ → ℕ) (s at at' a m : ℕ)
    → Wrote fs chain free f p s at a t chain' free'
    → Wrote t chain' free' f p (s + a) at' m u chain'' free''
    → (m ≢ 0 → at' ≡ at + a)
    → Wrote fs chain free f p s at (a + m) u chain'' free''
Wrote-join {fs} {t} {chain} {chain'} {chain''} {free'' = free''} f p s at at' a m w x on = record {
  taken = w.taken ++ x.taken;
  valid = x.valid;
  grows = x.grows ∙ ap (λ l. l ++ x.taken) w.grows ∙ append_assoc (chain f) w.taken x.taken;
  others = λ g ne. x.others g ne ∙ w.others g ne;
  uses = w.uses ∙ ap (λ l. w.taken ++ l) x.uses ∙ sym (append_assoc w.taken x.taken free'');
  bytes = λ ys i d lt.
      let e : chain'' f ++ ys ≡ chain' f ++ (x.taken ++ ys) =
        ap (λ l. l ++ ys) x.grows ∙ append_assoc (chain' f) x.taken ys in
      x.bytes ys i d lt
      ∙ spliced-join p (byte_at t.contents (chain'' f ++ ys))
          (byte_at fs.contents (chain'' f ++ ys)) s (s + a) at at' a m i
          (rw e (w.bytes (x.taken ++ ys) i (rw (← e) d) (rw (← e) lt))) (λ ne. refl) on;
  kept = λ b j o.
      let out : has b (chain' f) ≡ false =
        ground (arith, has-append b (chain' f) x.taken, ap (has b) x.grows) in
      x.kept b j o ∙ w.kept b j out;
  names = λ g. (
    (x.names g).0 ∙ (w.names g).0,
    (x.names g).1 ∙ (w.names g).1,
    λ ne. (x.names g).2 ne ∙ (w.names g).2 ne,
  );
  size = ground (arith, x.size, w.size, on);
}

pub Wrote-count :
    {fs t : Fat} {chain chain' : ℕ → List ℕ} {free free' : List ℕ} (f : ℕ) (p : ℕ → ℕ) (s at : ℕ)
    {m n : ℕ}
    → m ≡ n
    → Wrote fs chain free f p s at m t chain' free'
    → Wrote fs chain free f p s at n t chain' free'
Wrote-count f p s at e w = rw (← e) w

-- A write that starts once its block is there.
pub Wrote-first :
    {fs t u : Fat} {chain chain' chain'' : ℕ → List ℕ} {free free' free'' : List ℕ} (f : ℕ)
    (p : ℕ → ℕ) (s at n : ℕ)
    → Wrote fs chain free f p s at 0 t chain' free'
    → Wrote t chain' free' f p s at n u chain'' free''
    → Wrote fs chain free f p s at n u chain'' free''
Wrote-first {t} {u} {chain'} {chain''} {free'} {free''} f p s at n w x =
    let y : Wrote t chain' free' f p (s + 0) at n u chain'' free'' = rw (plus_zero s) x in
    Wrote-count f p s at (zero-add n) (Wrote-join f p s at at 0 n w y (λ ne. omega arith))
  where
    plus_zero : (k : ℕ) → k + 0 ≡ k
    plus_zero k = omega arith

-- The block that a round goes to.
pub data Chosen (fs : Fat) (chain : ℕ → List ℕ) (free : List ℕ) (f : ℕ) (p : ℕ → ℕ) (lb s at : ℕ)
    : ℤ × Fat → Type 0 where
  no_room : lb ≡ length (chain f) → free ≡ [] → Chosen fs chain free f p lb s at (minus enospc, fs)
  chosen :
      {b : ℕ} {t : Fat} {chain' : ℕ → List ℕ} {free' : List ℕ}
      → Wrote fs chain free f p s at 0 t chain' free'
      → lb < length (chain' f)
      → nth (chain' f) lb ≡ b
      → Chosen fs chain free f p lb s at (pos b, t)

Added-Chosen :
    (fs : Fat) (chain : ℕ → List ℕ) (free : List ℕ) (f : ℕ) (p : ℕ → ℕ) (s at : ℕ) (r : ℤ × Fat)
    → Added fs chain f free r
    → Chosen fs chain free f p (length (chain f)) s at r
unfolding update
Added-Chosen fs chain free f p s at r full = no_room refl refl
Added-Chosen fs chain free f p s at r (added {b} {free = rest} {fs' = t} same root c1 c2 v') =
    let new : grown chain f b f ≡ chain f ++ b ∷ [] = update_self chain f (chain f ++ b ∷ []) in
    chosen
      (record {
        taken = b ∷ [];
        valid = v';
        grows = new;
        others = λ g ne. update_ne chain f g (chain f ++ b ∷ []) ne;
        uses = refl;
        bytes = λ ys i d l. ground (arith, ap (λ c. byte_at c (grown chain f b f ++ ys) i) same);
        kept = λ c j o. ap (λ k. k c j) same;
        names = λ g. ((root g).1, (root g).2, λ ne. (root g).0);
        size = (root f).0;
      })
      (rw new (omega (arith, length-append (chain f) (b ∷ [])))) (rw new (nth-snoc (chain f) b))

module _ (fs : Fat) (chain : ℕ → List ℕ) (free : List ℕ) (f : ℕ) (p : ℕ → ℕ)
    (v : IsValid fs chain free) (lt : f < max_files) where
  pub write_block-Chosen :
      (lb s at : ℕ) → lb ≤ length (chain f) → Chosen fs chain free f p lb s at (write_block fs f lb)
  write_block-Chosen lb s at le = elim (Bool-cases (ltb lb (length (chain f)))) [
    | inl h ↦
        let in' : lb < length (chain f) = ground arith in
        let e : fat_translate_block fs f lb ≡ pos (nth (chain f) lb) =
          translate-block_at fs chain free f lb v lt ∙ block_at-nth (chain f) lb in' in
        rw e (chosen (Wrote-none fs chain free f p s at v) in' refl)
    | inr h ↦
        let at_end : lb ≡ length (chain f) = ground arith in
        let e : fat_translate_block fs f lb ≡ eoc =
          translate-block_at fs chain free f lb v lt
          ∙ ap (block_at (chain f)) at_end
          ∙ block_at-end (chain f) in
        rw e (
          rw at_end (
            Added-Chosen fs chain free f p s at (fat_add_block fs f)
              (fat_add_block-Added fs chain free f v lt)))
  ]

  -- A round of the loop, once it has its block.
  pub round-Wrote :
      (b lb offset written part bo : ℕ)
      → lb < length (chain f)
      → nth (chain f) lb ≡ b
      → 0 < part
      → bo + part ≤ block_size
      → lb * block_size + bo ≡ offset + written
      → Wrote fs chain free f p written
          (lb * block_size + bo)
          part
          (wrote fs f p b offset written part bo)
          chain
          free
  round-Wrote b lb offset written part bo l e some fits place = record {
    taken = [];
    valid = round-IsValid fs f p b offset written part bo chain free v lt (omega (arith, place));
    grows = sym (append-nil (chain f));
    others = λ g ne. refl;
    uses = refl;
    bytes = λ ys i d li.
        let at_lb : nth (chain f ++ ys) lb ≡ b = nth-append (chain f) ys lb l ∙ e in
        write-bytes fs.contents (wrote fs f p b offset written part bo).contents (chain f ++ ys) lb
          bo part p written i d (omega (arith, length-append (chain f) ys)) (omega arith)
          (λ j lj. rw at_lb (round-own fs f p b offset written part bo j lj))
          (λ c j ne. round-others fs f p b offset written part bo c j (λ q. ne (q ∙ sym at_lb))) li;
    kept = λ c j o.
        round-others fs f p b offset written part bo c j
          (λ q. ground (arith, nth-has (chain f) lb l));
    names = λ g. let r = round-root fs f p b offset written part bo g in (r.3, r.2, r.4);
    size = ground (arith, (round-root fs f p b offset written part bo f).5 refl);
  }
