-- ===== src/Storage/Reading.antt =====
-- One call of the reader of stored files.
use miri_tool_v.Base.{
  ℕ, zero, suc, ◌+◌, ◌-◌, ◌≤◌, ◌<◌, ◌≡◌, ◌≢◌, refl, sym, ap, subst, ◌∙◌, Bool, true, false, not,
  ◌||◌, Bytes, List, [], ◌∷◌, ◌++◌, append-nil, append_assoc, some, length, length-drop, take, drop,
  take-append, drop-append, take-append_le, drop-append_le, take_split, drop_split, ◌==◌,
  if◌then◌else◌, arith, Bool-cases, inl, inr, ◌⊎◌,
}
use miri_tool_v.Storage.{Cipher, Reader, Read, refill, copied, read_loop, reader_read}
use miri_tool_v.Storage.Blocks.{AreBlocks, concat, encoded}

-- What the cipher is relied on for: a block is as long encrypted, and decrypts to itself.
pub record IsCipher (cipher : Cipher) : Type 0 where
  pub same_length : (b : Bytes) → length b ≡ 16 → length (cipher.encrypt b) ≡ 16
  pub decrypts : (b : Bytes) → length b ≡ 16 → cipher.decrypt (cipher.encrypt b) ≡ b

module _ (cipher : Cipher) (law : IsCipher cipher) where
  -- The reader still has `content` to hand out.
  pub record Holds (content : Bytes) (r : Reader) : Type 0 where
    pub blocks : List Bytes
    pub slack : Bytes
    pub whole : AreBlocks blocks
    pub in_file : r.file ≡ encoded cipher blocks
    pub rest : r.buffer ++ concat blocks ≡ content ++ slack
    pub left : r.remaining ≡ length content
    pub is_active : r.active ≡ true
    pub is_encrypted : r.encrypted ≡ true

  -- With content left, a refill succeeds and leaves some bytes in the buffer.
  abbrev Refilled : Bytes → Reader → Type 0
  Refilled content r =
      (q : Reader) × (refill cipher r ≡ some q) × (0 < length q.buffer) × Holds content q

  refill_empty :
      (content : Bytes) (r : Reader) (blocks : List Bytes) (slack : Bytes)
      → content ≢ []
      → length r.buffer ≡ 0
      → AreBlocks blocks
      → r.file ≡ encoded cipher blocks
      → concat blocks ≡ content ++ slack
      → r.remaining ≡ length content
      → r.active ≡ true
      → r.encrypted ≡ true
      → Refilled content r
  unfolding refill
  refill_empty [] r [] slack c e w f h l a n = absurd (c refl)
  refill_empty (x ∷ xs) r [] slack c e w f h l a n = absurd (ground arith)
  refill_empty content r (b ∷ bs) slack c e w f h l a n =
      let len = law.same_length b w.0 in
      let head : take 16 r.file ≡ cipher.encrypt b =
        ap (take 16) f
        ∙ subst (λ k. take k (cipher.encrypt b ++ encoded cipher bs) ≡ cipher.encrypt b) len
            (take-append (cipher.encrypt b) (encoded cipher bs)) in
      let tail : drop 16 r.file ≡ encoded cipher bs =
        ap (drop 16) f
        ∙ subst (λ k. drop k (cipher.encrypt b ++ encoded cipher bs) ≡ encoded cipher bs) len
            (drop-append (cipher.encrypt b) (encoded cipher bs)) in
      let sixteen = w.0 in
      (
        record r { file = encoded cipher bs; buffer = b },
        rw (e, head, tail, len, law.decrypts b w.0),
        omega arith,
        record {
          blocks = bs;
          slack = slack;
          whole = w.1;
          in_file = refl;
          rest = h;
          left = l;
          is_active = a;
          is_encrypted = n;
        },
      )

  refill-Refilled :
      (content : Bytes) (r : Reader) → content ≢ [] → Holds content r → Refilled content r
  unfolding refill
  refill-Refilled content r some_left h = elim (Bool-cases (length r.buffer == 0)) [
    | inl empty ↦
        let n : length r.buffer ≡ 0 = ground arith in
        refill_empty content r h.blocks h.slack some_left n h.whole h.in_file
          (ap (λ b. b ++ concat h.blocks) (sym (no_bytes r.buffer n)) ∙ h.rest) h.left h.is_active
          h.is_encrypted
    | inr part ↦ (r, rw part, ground arith, h)
  ]
    where
      no_bytes : (xs : Bytes) → length xs ≡ 0 → xs ≡ []
      no_bytes [] e = refl
      no_bytes (x ∷ xs) e = absurd (omega arith)

  -- what a round copies, and the reader behind it
  advance :
      (content : Bytes) (q : Reader) (n : ℕ)
      → n ≤ length q.buffer
      → n ≤ length content
      → Holds content q
      → (take n q.buffer ≡ take n content)
        × Holds
            (drop n content)
            (record q { buffer = drop n q.buffer; remaining = q.remaining - n })
  advance content q n a b h = (
    sym (take-append_le n q.buffer (concat h.blocks) a)
        ∙ ap (take n) h.rest
        ∙ take-append_le n content h.slack b,
    record {
      blocks = h.blocks;
      slack = h.slack;
      whole = h.whole;
      in_file = h.in_file;
      rest =
          sym (drop-append_le n q.buffer (concat h.blocks) a)
          ∙ ap (drop n) h.rest
          ∙ drop-append_le n content h.slack b;
      left = omega (arith, h.left, length-drop n content);
      is_active = h.is_active;
      is_encrypted = h.is_encrypted;
    },
  )

  -- A read that is given the first `n` bytes of the content, and what it leaves.
  abbrev pub Gives : ℕ → Bytes → Bytes → Read → Type 0
  Gives n content out read = (read.out ≡ out ++ take n content) × Holds (drop n content) read.reader

  nothing_given :
      (wanted : ℕ) (content out : Bytes) (r : Reader)
      → (wanted ≡ 0) ⊎ (length content ≡ 0)
      → Holds content r
      → Gives wanted content out (record { out = out; reader = r })
  nothing_given wanted content out r (inl e) h = rw (e, append-nil) (refl, h)
  nothing_given wanted [] out r (inr e) h = none_left wanted
    where
      none_left : (k : ℕ) → Gives k [] out (record { out = out; reader = r })
      none_left zero = (sym (append-nil out), h)
      none_left (suc k) = (sym (append-nil out), h)
  nothing_given wanted (x ∷ xs) out r (inr e) h = absurd (omega arith)

  stop_cases : (a b : ℕ) → ((a == 0 || b == 0) ≡ true) → (a ≡ 0) ⊎ (b ≡ 0)
  stop_cases a b e = grind arith

  go_cases : (a b : ℕ) → ((a == 0 || b == 0) ≡ false) → (0 < a) × (0 < b)
  go_cases a b e = ground arith

  then_given :
      (n m : ℕ) (content out part : Bytes) (read : Read)
      → part ≡ take n content
      → Gives m (drop n content) (out ++ part) read
      → Gives (n + m) content out read
  then_given n m content out part read e g = (
    g.0
        ∙ append_assoc out part (take m (drop n content))
        ∙ ap (◌++◌ out) (ap (λ p. p ++ take m (drop n content)) e ∙ sym (take_split n m content)),
    subst (λ c. Holds c read.reader) (sym (drop_split n m content)) g.1,
  )

  some_content : (content : Bytes) → 0 < length content → content ≢ []
  some_content content h e = absurd (omega (arith, ap (λ (xs : Bytes). length xs) e))

  read_loop-Gives :
      (fuel wanted : ℕ) (content : Bytes) (r : Reader) (out : Bytes)
      → wanted ≤ fuel
      → Holds content r
      → Gives wanted content out (read_loop cipher fuel wanted r out)
  unfolding read_loop
  read_loop-Gives zero wanted content r out k h =
      nothing_given wanted content out r (inl (omega arith)) h
  read_loop-Gives (suc fuel) wanted content r out k h =
      elim (Bool-cases (wanted == 0 || r.remaining == 0)) [
        | inl stops ↦ rw stops (
            nothing_given wanted content out r
              (elim (stop_cases wanted r.remaining stops) [
                | inl e ↦ inl e
                | inr e ↦ inr (sym h.left ∙ e)
              ])
              h)
        | inr goes ↦
            let more = go_cases wanted r.remaining goes in
            let (q, fills, some_bytes, held) =
              refill-Refilled content r (some_content content (omega (arith, h.left))) h in
            let n = copied cipher wanted q in
            let left = held.left in
            let bounds : (0 < n) × (n ≤ length q.buffer) × (n ≤ length content) × (n ≤ wanted) =
              ground (arith, h.left) in
            let (same, after) = advance content q n bounds.1 bounds.2 held in
            let whole : n + (wanted - n) ≡ wanted = omega arith in
            rw (goes, fills)
              (subst
                (λ m. Gives m content out (
                  read_loop cipher fuel (wanted - n)
                    (record q { buffer = drop n q.buffer; remaining = q.remaining - n })
                    (out ++ take n q.buffer)))
                whole
                (then_given n (wanted - n) content out (take n q.buffer) _ same (
                  read_loop-Gives fuel (wanted - n) (drop n content) _ (out ++ take n q.buffer)
                    (omega arith) after)))
      ]

  pub reader_read-Gives :
      (n : ℕ) (content : Bytes) (r : Reader)
      → Holds content r
      → Gives n content [] (reader_read cipher n r)
  unfolding reader_read
  reader_read-Gives n content r h = go r.active (n == 0) r.encrypted h.is_active h.is_encrypted refl
    where
      go :
          (a z e : Bool)
          → a ≡ true
          → e ≡ true
          → z ≡ (n == 0)
          → Gives n content [] (
              if not a || z
              then record { out = []; reader = r }
              else if not e
              then record { out = take n r.file; reader = record r { file = drop n r.file } }
              else read_loop cipher n n r [])
      go true true e p q z = nothing_given n content [] r (inl (ground arith)) h
      go true false true p q z = read_loop-Gives n n content r [] (omega arith) h
      go true false false p q z = absurd (grind arith)
      go false z e p q zero_is = absurd (grind arith)
