-- ===== src/Convert/Built.antt =====
-- The conversion of records that fit: it ends with the image that they describe.
use miri_tool_v.Base.{
  ℕ, ◌+◌, ◌-◌, ◌^◌, ◌≤◌, ◌<◌, ◌≡◌, ◌⊎◌, inl, inr, refl, ap, sym, ◌∙◌, true, false, append-nil,
  Bytes, [], ◌++◌, length, length-append, length-replicate, drop, replicate, get_or, ltb, leb, ◌==◌,
  u32, done, ◌>>=◌, arith,
}
use miri_tool_v.Convert.{TextRecord, Ctx, Heap, copy_in, ensure_capacity, expand_front, rebase, put}
use miri_tool_v.Convert.Image.{
  byte_after, value, over, value-nil, value-front, value-pad, length-over, covers_no, covers_yes,
  get_or-over_before, get_or-over_from, get_or-over_after, le_or_lt, value_in, value_out,
  get_or-append_lt,
}

-- A record that has come whole; a data record has some bytes, which end below the last address.
pub record IsFine (r : TextRecord) : Type 0 where
  pub checked : r.mismatch ≡ false
  pub whole : r.is_whole ≡ true
  pub some_bytes : r.is_data ≡ true → 0 < length r.bytes
  pub in_space : r.is_data ≡ true → r.address + length r.bytes < 2 ^ 32

-- The image so far.
pub record IsReady (c : Ctx) : Type 0 where
  pub sound : c.has_error ≡ false
  pub bound : c.base_addr + length c.content < 2 ^ 32
  pub started :
      ((c.has_base ≡ true) × (0 < length c.content)) ⊎ ((c.has_base ≡ false) × (c.content ≡ []))

-- what a context holds for an address
abbrev pub holds : Ctx → ℕ → ℕ
holds c a = value c.base_addr c.content a

-- The image with its first address at or below that of the next record.
record IsRebased (c b : Ctx) (address : ℕ) : Type 0 where
  sound : b.has_error ≡ false
  based : b.has_base ≡ true
  below : b.base_addr ≤ address
  bound : b.base_addr + length b.content < 2 ^ 32
  same : (a : ℕ) → holds b a ≡ holds c a

-- the byte at an address, with a record written over an image that reaches up to it
pub value-over :
    (base : ℕ) (r : TextRecord) (xs : Bytes) (a : ℕ)
    → r.is_data ≡ true
    → base ≤ r.address
    → r.address - base ≤ length xs
    → value base (over (r.address - base) r.bytes xs) a ≡ byte_after r a (value base xs a)
value-over base r xs a d h k =
    let n = r.address - base in
    let new = over n r.bytes xs in
    elim (le_or_lt base a) [
      | inr out ↦
          value_out base new a out
          ∙ sym (covers_no r a (value base xs a) (inl (omega arith)) ∙ value_out base xs a out)
      | inl from ↦ value_in base new a from ∙ elim (le_or_lt r.address a) [
        | inr before ↦
            get_or-over_before n r.bytes xs (a - base) (omega arith) (omega arith)
            ∙ sym (covers_no r a (value base xs a) (inl before) ∙ value_in base xs a from)
        | inl at_or_after ↦ elim (le_or_lt (r.address + length r.bytes) a) [
          | inl after ↦
              get_or-over_after n r.bytes xs (a - base) (omega arith) (omega arith)
              ∙ sym (covers_no r a (value base xs a) (inr after) ∙ value_in base xs a from)
          | inr inside ↦
              let e : a - base - n ≡ a - r.address = omega arith in
              get_or-over_from n r.bytes xs (a - base) (omega arith) (omega arith)
              ∙ ap (λ i. get_or (r.bytes ++ drop (n + length r.bytes) xs) i 0) e
              ∙ get_or-append_lt r.bytes (drop (n + length r.bytes) xs) (a - r.address)
                  (omega arith)
              ∙ sym (covers_yes r a (value base xs a) d at_or_after inside)
        ]
      ]
    ]

pub zeros_length : (n : ℕ) → length {A = ℕ} (replicate n 0) ≡ n
zeros_length n = length-replicate n 0

rebase_below :
    (heap : Heap) (address : ℕ) (c : Ctx)
    → c.has_base ≡ true
    → ltb address c.base_addr ≡ true
    → rebase heap address c ≡ expand_front heap address c
unfolding rebase
rebase_below heap address c b l = rw (b, l) refl

module _ (heap : Heap) (gives : (n : ℕ) → heap n ≡ true) where
  expand_front_lem :
      (address : ℕ) (c : Ctx)
      → c.has_error ≡ false
      → c.has_base ≡ true
      → c.base_addr + length c.content < 2 ^ 32
      → 0 < length c.content
      → address < c.base_addr
      → (b : Ctx) × (expand_front heap address c ≡ done b) × IsRebased c b address
  unfolding expand_front
  expand_front_lem address c sound based bound long low =
      let n : length c.content + (c.base_addr - address) < 2 ^ 32 = omega arith in
      let e : u32 (length c.content + (c.base_addr - address))
          ≡ length c.content + (c.base_addr - address) =
        omega arith in
      let f : (length c.content == 0) ≡ false = ground arith in
      let g : leb c.base_addr address ≡ false = ground arith in
      let same : (length c.content + (c.base_addr - address)
            == length c.content + (c.base_addr - address))
          ≡ true =
        ground arith in
      let new = replicate (c.base_addr - address) 0 ++ c.content in
      let more : length new ≡ c.base_addr - address + length c.content = omega (
        arith,
        length-append (replicate (c.base_addr - address) 0) c.content,
        zeros_length (c.base_addr - address),
      ) in
      (
        record c { content = new; base_addr = address },
        rw (f, g, e, gives (length c.content + (c.base_addr - address)), same) refl,
        record {
          sound = sound;
          based = based;
          below = omega arith;
          bound = omega arith;
          same = λ a. value-front c.base_addr address c.content a (omega arith);
        },
      )

  rebase_lem :
      (address : ℕ) (c : Ctx)
      → IsReady c
      → address < 2 ^ 32
      → (b : Ctx) × (rebase heap address c ≡ done b) × IsRebased c b address
  unfolding rebase
  rebase_lem address c ready h = elim ready.started [
    | inr fresh ↦ (
      record c { base_addr = address; has_base = true },
      rw fresh.0 refl,
      record {
        sound = ready.sound;
        based = refl;
        below = omega arith;
        bound =
            let e : length c.content ≡ 0 = ap (λ (xs : Bytes). length xs) fresh.1 in omega arith;
        same = λ a.
            let e = fresh.1 in
            ap (λ xs. value address xs a) e
            ∙ value-nil address a
            ∙ sym (ap (λ xs. value c.base_addr xs a) e ∙ value-nil c.base_addr a);
      },
    )
    | inl going ↦ elim (le_or_lt c.base_addr address) [
      | inl above ↦
          let e : ltb address c.base_addr ≡ false = ground arith in
          (
            c,
            rw (going.0, e) refl,
            record {
              sound = ready.sound;
              based = going.0;
              below = above;
              bound = ready.bound;
              same = λ a. refl;
            },
          )
      | inr low ↦
          let e : ltb address c.base_addr ≡ true = ground arith in
          let x = expand_front_lem address c ready.sound going.0 ready.bound going.1 low in
          (x.0, rebase_below heap address c going.0 e ∙ x.1, x.2)
    ]
  ]

  ensure_capacity_lem :
      (required : ℕ) (c : Ctx)
      → (n : ℕ) × (ensure_capacity heap required c
          ≡ done (record c { content = c.content ++ replicate n 0 }))
        × (required ≤ length c.content + n)
        × ((n ≡ 0) ⊎ (length c.content + n ≡ required))
  unfolding ensure_capacity
  ensure_capacity_lem required c = elim (le_or_lt required (length c.content)) [
    | inl fits ↦
        let e : leb required (length c.content) ≡ true = ground arith in
        (
          0,
          rw e (ap (λ xs. done (record c { content = xs })) (sym (append-nil c.content))),
          omega arith,
          inl refl,
        )
    | inr short ↦
        let e : leb required (length c.content) ≡ false = ground arith in
        (required - length c.content, rw (e, gives required) refl, omega arith, inr (omega arith))
  ]

  copied :
      (r : TextRecord) (c b : Ctx) (n : ℕ)
      → r.is_data ≡ true
      → IsFine r
      → IsRebased c b r.address
      → r.address - b.base_addr + length r.bytes ≤ length b.content + n
      → (n ≡ 0) ⊎ (length b.content + n ≡ r.address - b.base_addr + length r.bytes)
      → (d : Ctx) × (copy_in
            (r.address - b.base_addr)
            r.bytes
            (record b { content = b.content ++ replicate n 0 })
          ≡ done d)
        × IsReady d
        × (d.has_base ≡ true)
        × ((a : ℕ) → holds d a ≡ byte_after r a (holds c a))
  copied r c b n d fine re fits added =
      let padded = b.content ++ replicate n 0 in
      let offset = r.address - b.base_addr in
      let wide : length padded ≡ length b.content + n =
        omega (arith, length-append b.content (replicate n 0), zeros_length n) in
      let ok : leb (offset + length r.bytes) (length padded) ≡ true = ground arith in
      let kept = length-over offset r.bytes padded (omega arith) in
      (
        record b { content = over offset r.bytes padded },
        rw ok refl,
        record {
          sound = re.sound;
          bound = bounded added kept wide;
          started = inl (re.based, long kept wide);
        },
        re.based,
        λ a.
            value-over b.base_addr r padded a d re.below (omega arith)
            ∙ ap (byte_after r a) (value-pad b.base_addr b.content n a ∙ re.same a),
      )
    where
      bounded :
          (n ≡ 0) ⊎ (length b.content + n ≡ r.address - b.base_addr + length r.bytes)
          → length (over (r.address - b.base_addr) r.bytes (b.content ++ replicate n 0))
            ≡ length (b.content ++ replicate n 0)
          → length (b.content ++ replicate n 0) ≡ length b.content + n
          → b.base_addr
              + length (over (r.address - b.base_addr) r.bytes (b.content ++ replicate n 0))
            < 2 ^ 32
      bounded (inl e) k w = omega (arith, re.bound)
      bounded (inr e) k w = omega (arith, fine.in_space d, re.below)

      long :
          length (over (r.address - b.base_addr) r.bytes (b.content ++ replicate n 0))
            ≡ length (b.content ++ replicate n 0)
          → length (b.content ++ replicate n 0) ≡ length b.content + n
          → 0 < length (over (r.address - b.base_addr) r.bytes (b.content ++ replicate n 0))
      long k w = omega (arith, fine.some_bytes d)

  pub put_lem :
      (r : TextRecord) (c : Ctx)
      → r.is_data ≡ true
      → IsFine r
      → IsReady c
      → (d : Ctx) × (put heap r c ≡ done d)
        × IsReady d
        × (d.has_base ≡ true)
        × ((a : ℕ) → holds d a ≡ byte_after r a (holds c a))
  unfolding put
  put_lem r c d fine ready =
      let x = rebase_lem r.address c ready (omega (arith, fine.in_space d)) in
      let b = x.0 in
      let required = r.address - b.base_addr + length r.bytes in
      let whole : u32 required ≡ required = omega (arith, fine.in_space d) in
      let y = ensure_capacity_lem required b in
      let z = copied r c b y.0 d fine x.2 y.2 y.3 in
      (
        z.0,
        ap
              (λ o. o >>= λ b.
                ensure_capacity heap (u32 (r.address - b.base_addr + length r.bytes)) b
                >>= copy_in (r.address - b.base_addr) r.bytes)
              x.1
            ∙ ap (λ n. ensure_capacity heap n b >>= copy_in (r.address - b.base_addr) r.bytes) whole
            ∙ ap (λ o. o >>= copy_in (r.address - b.base_addr) r.bytes) y.1
            ∙ z.1,
        z.2,
        z.3,
        z.4,
      )
