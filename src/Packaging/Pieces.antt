-- ===== src/Packaging/Pieces.antt =====
-- The loops of fw_upload_packaging.c that cut a block into pieces, and the sinks that take a block
-- and its pieces alike.
use miri_tool_v.Base.{
  ℕ, zero, suc, ◌+◌, ◌≤◌, ◌<◌, ◌^◌, ◌≡◌, ◌≢◌, refl, ap, sym, ◌∙◌, Bytes, [], ◌∷◌, ◌++◌, length,
  fun_ext, arith, take, drop, take-append-drop, length-take, length-drop, take_all, drop_all, leb,
  Bool-cases, inl, inr, u32, Outcome, done, failed, fault, ◌>>=◌, >>=_done,
}
use miri_tool_v.Packaging.Defs.{Sink, send_pieces}
use miri_tool_v.Packaging.Binary.{process_bin}

-- Two adjacent blocks, not empty and below the end of the address space, may be given as one.
pub record IsSequential {ℓ} {S : Type ℓ} (sink : Sink S) : Type ℓ where
  pub joined :
      (s : S) (addr : ℕ) (xs ys : Bytes)
      → xs ≢ []
      → ys ≢ []
      → addr + length (xs ++ ys) < 2 ^ 32
      → sink s addr (xs ++ ys) ≡ (sink s addr xs >>= λ t. sink t (u32 (addr + length xs)) ys)

ne_nil_of_pos : (xs : Bytes) → 0 < length xs → xs ≢ []
ne_nil_of_pos xs h e = absurd (omega (arith, ap (λ (ys : Bytes). length ys) e))

pub bind-ne-fault {ℓ} :
    {S : Type ℓ} (m : Outcome S) (f : S → Outcome S)
    → m ≢ fault
    → ((t : S) → f t ≢ fault)
    → (m >>= f) ≢ fault
bind-ne-fault (done t) f h k = k t
bind-ne-fault (failed e t) f h k = cc
bind-ne-fault fault f h k = h

module _ {ℓ} {S : Type ℓ} (sink : Sink S) where
  -- Fuel equal to the number of bytes is enough.
  pub send_pieces-ne-fault :
      (piece fuel : ℕ) (xs : Bytes) (addr : ℕ) (s : S)
      → 0 < piece
      → length xs ≤ fuel
      → ((t : S) (a : ℕ) (ys : Bytes) → sink t a ys ≢ fault)
      → send_pieces sink piece fuel xs addr s ≢ fault
  unfolding send_pieces
  send_pieces-ne-fault piece fuel [] addr s pos enough safe = ground arith
  send_pieces-ne-fault piece zero (x ∷ xs) addr s pos enough safe = absurd (omega arith)
  send_pieces-ne-fault piece (suc fuel) (x ∷ xs) addr s pos enough safe =
      bind-ne-fault (sink s addr (take piece (x ∷ xs))) _ (safe s addr (take piece (x ∷ xs))) λ t.
        send_pieces-ne-fault piece fuel (drop piece (x ∷ xs)) _ t pos
          (omega (arith, length-drop piece (x ∷ xs))) safe

  module _ (law : IsSequential sink) where
    pub send_pieces-IsSequential :
        (piece fuel : ℕ) (xs : Bytes) (addr : ℕ) (s : S)
        → 0 < piece
        → length xs ≤ fuel
        → xs ≢ []
        → addr + length xs < 2 ^ 32
        → send_pieces sink piece fuel xs addr s ≡ sink s addr xs
    unfolding send_pieces
    send_pieces-IsSequential piece fuel [] addr s pos enough some_bytes below =
        absurd (some_bytes refl)
    send_pieces-IsSequential piece zero (x ∷ xs) addr s pos enough some_bytes below =
        absurd (omega arith)
    send_pieces-IsSequential piece (suc fuel) (x ∷ xs) addr s pos enough some_bytes below =
        elim (Bool-cases (leb (length (x ∷ xs)) piece)) [
          | inl last ↦
              let whole : length (x ∷ xs) ≤ piece = ground arith in
              rw (take_all piece (x ∷ xs) whole, drop_all piece (x ∷ xs) whole)
                (>>=_done (sink s addr (x ∷ xs)))
          | inr more ↦
              let cut : piece < length (x ∷ xs) = ground arith in
              let n = length-take piece (x ∷ xs) (omega arith) in
              let m = length-drop piece (x ∷ xs) in
              ap (λ f. sink s addr (take piece (x ∷ xs)) >>= f)
                (fun_ext λ t.
                  send_pieces-IsSequential piece fuel (drop piece (x ∷ xs)) _ t pos (omega arith)
                    (ne_nil_of_pos (drop piece (x ∷ xs)) (omega arith)) (omega arith))
              ∙ sym (
                  law.joined s addr (take piece (x ∷ xs)) (drop piece (x ∷ xs))
                    (ne_nil_of_pos (take piece (x ∷ xs)) (omega arith))
                    (ne_nil_of_pos (drop piece (x ∷ xs)) (omega arith))
                    (rw (take-append-drop piece (x ∷ xs)) below))
              ∙ ap (sink s addr) (take-append-drop piece (x ∷ xs))
        ]

    -- A binary file of fewer than 2 ^ 32 bytes, and at least one, is handed over as one block at
    -- address 0, however it is cut.
    pub process_bin-IsSequential :
        (file : Bytes) (s : S)
        → file ≢ []
        → length file < 2 ^ 32
        → process_bin sink file s ≡ sink s 0 file
    unfolding process_bin
    process_bin-IsSequential file s some_bytes below =
        send_pieces-IsSequential 512 (length file) file 0 s (omega arith) (omega arith) some_bytes
          (omega arith)
