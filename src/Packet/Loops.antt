-- ===== src/Packet/Loops.antt =====
-- The two loops of the packet module over a whole payload: what the sender copies and what the
-- parser stores.
use miri_tool_v.Base.{
  ℕ, ◌+◌, ◌≤◌, ◌<◌, ◌≡◌, refl, ap, ◌∙◌, Bytes, [], ◌∷◌, ◌++◌, append-nil, append_assoc, bit_xor,
  arith, length, length-append, set, get_elem?-append_length, replicate, done,
}
use miri_tool_v.Packet.{Packet, Sending, content, crc, parse_in, receive, copy}

-- the running `^` checksum
abbrev pub fold_xor : ℕ → Bytes → ℕ
fold_xor c [] = c
fold_xor c (x ∷ xs) = fold_xor (bit_xor c x) xs

set-append_length :
    (xs : Bytes) (y v : ℕ) (ys : Bytes) → set (xs ++ y ∷ ys) (length xs) v ≡ xs ++ v ∷ ys
set-append_length [] y v ys = refl
set-append_length (x ∷ xs) y v ys = ap (◌∷◌ x) (set-append_length xs y v ys)

pub copy_lem :
    (pre xs rest : Bytes) (s : Sending)
    → copy (length xs) (length pre) (pre ++ (xs ++ rest)) s
      ≡ done (record { out = s.out ++ xs; sum = fold_xor s.sum xs })
unfolding copy
copy_lem pre [] rest s = rw append-nil
copy_lem pre (x ∷ xs) rest s = ground (
  arith,
  get_elem?-append_length pre x (xs ++ rest),
  length-append pre (x ∷ []),
  append_assoc pre (x ∷ []) (xs ++ rest),
  append_assoc s.out (x ∷ []) xs,
  copy_lem (pre ++ x ∷ []) xs rest (record { out = s.out ++ x ∷ []; sum = bit_xor s.sum x }),
)

-- one byte before the last
receive-content_step :
    (p : Packet) (pre zs rest : Bytes) (x : ℕ)
    → p.status ≡ content
    → p.r_count ≡ length pre
    → p.r_buff ≡ pre ++ 0 ∷ zs
    → length pre + 1 < p.size
    → p.size ≤ 200
    → receive p (x ∷ rest)
      ≡ receive
          (record p {
            r_buff = (pre ++ x ∷ []) ++ zs;
            r_count = length pre + 1;
            check = bit_xor p.check x;
            status = content;
          })
          rest
unfolding receive parse_in
receive-content_step p pre zs rest x st cnt buf more small =
    ground (arith, set-append_length pre 0 x zs, append_assoc pre (x ∷ []) zs)

-- The parser within a payload: `pre` is stored, `zeros` and `tail` are the rest of the buffer.
-- A payload of at least one byte that ends at `Length` fills the zeros and leads to the checksum.
pub receive-content :
    (p : Packet) (pre xs tail rest : Bytes) (x : ℕ)
    → p.status ≡ content
    → p.r_count ≡ length pre
    → p.r_buff ≡ pre ++ (replicate (length (x ∷ xs)) 0 ++ tail)
    → p.size ≡ length pre + length (x ∷ xs)
    → p.size ≤ 200
    → receive p (x ∷ (xs ++ rest))
      ≡ receive
          (record p {
            r_buff = pre ++ (x ∷ (xs ++ tail));
            r_count = p.size;
            check = fold_xor p.check (x ∷ xs);
            status = crc;
          })
          rest
unfolding receive parse_in
receive-content p pre [] tail rest x st cnt buf fits small =
    ground (arith, set-append_length pre 0 x tail)
receive-content p pre (y ∷ xs) tail rest x st cnt buf fits small =
    receive-content_step p pre (replicate (length (y ∷ xs)) 0 ++ tail) (y ∷ (xs ++ rest)) x st cnt
      buf (omega arith) small
    ∙ receive-content
        (record p {
          r_buff = (pre ++ x ∷ []) ++ (replicate (length (y ∷ xs)) 0 ++ tail);
          r_count = length pre + 1;
          check = bit_xor p.check x;
          status = content;
        })
        (pre ++ x ∷ []) xs tail rest y refl (omega (arith, length-append pre (x ∷ []))) refl
        (omega (arith, length-append pre (x ∷ []))) small
    ∙ rw append_assoc
