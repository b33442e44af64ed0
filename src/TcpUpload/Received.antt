-- ===== src/TcpUpload/Received.antt =====
-- What the loop of tcp_server.c receives and stores.
use miri_tool_v.Base.{
  ℕ, zero, suc, ◌+◌, ◌-◌, ◌*◌, ◌/◌, ◌^◌, ◌≤◌, ◌<◌, ◌≡◌, ◌≢◌, ◌⊎◌, inl, inr, refl, ap, sym, subst,
  ◌∙◌, true, false, All, Bytes, List, [], ◌∷◌, ◌++◌, append-nil, append_assoc, Option, some, length,
  length-append, length-take, length-drop, take, drop, take_all, take_split, take-append,
  drop-append, take-drop, min, ltb, leb, ◌==◌, Bool-cases, u8, u32, arith,
}
use miri_tool_v.FwState.{set_progress}
use miri_tool_v.Storage.{Cipher}
use miri_tool_v.Storage.Blocks.{concat}
use miri_tool_v.Manager.{UploadSession}
use miri_tool_v.Manager.Uploads.{HasStored, session_write-HasStored}
use miri_tool_v.TcpUpload.{recv, receive_loop}

abbrev pub AreSome : List Bytes → Type 0
AreSome = All (λ p. p ≢ [])

-- What one call of `recv` gives.
abbrev pub IsPart : ℕ → List Bytes → Bytes → List Bytes → Type 0
IsPart n cs bytes rest =
    (concat cs ≡ bytes ++ concat rest)
    × AreSome rest
    × (length bytes ≤ n)
    × ((bytes ≢ []) × (0 < length bytes) ⊎ ((length bytes ≡ 0) × (concat cs ≡ [])))

some_bytes : (xs : Bytes) → xs ≢ [] → 0 < length xs
some_bytes [] h = absurd (h refl)
some_bytes (x ∷ xs) h = omega arith

not_empty : (xs : Bytes) → 0 < length xs → xs ≢ []
not_empty xs h e = absurd (omega (arith, ap (λ (ys : Bytes). length ys) e))

pub recv-IsPart :
    (n : ℕ) (cs : List Bytes)
    → 0 < n
    → AreSome cs
    → (bytes : Bytes) × (rest : List Bytes) × (recv n cs ≡ (bytes, rest)) × IsPart n cs bytes rest
unfolding recv
recv-IsPart n [] h all = ([], [], refl, (refl, tt, omega arith, inr (refl, refl)))
recv-IsPart n (c ∷ cs) h all = elim (Bool-cases (leb (length c) n)) [
  | inl fits ↦ (c, cs, rw fits refl, (refl, all.1, ground arith, inl (all.0, some_bytes c all.0)))
  | inr long ↦
      let more : n < length c = ground arith in
      let k = length-take n c (omega arith) in
      let l = length-drop n c in
      let some_taken : 0 < length (take n c) = omega arith in
      (
        take n c,
        drop n c ∷ cs,
        rw long refl,
        (
          ap (λ xs. xs ++ concat cs) (sym (take-drop n c))
              ∙ append_assoc (take n c) (drop n c) (concat cs),
          (not_empty (drop n c) (omega arith), all.1),
          omega arith,
          inl (not_empty (take n c) some_taken, some_taken),
        ),
      )
]

take-append_ge :
    (n : ℕ) (xs ys : Bytes) → length xs ≤ n → take n (xs ++ ys) ≡ xs ++ take (n - length xs) ys
take-append_ge n xs ys h =
    let e : n ≡ length xs + (n - length xs) = omega arith in
    ap (λ k. take k (xs ++ ys)) e
    ∙ take_split (length xs) (n - length xs) (xs ++ ys)
    ∙ ap (λ zs. zs ++ take (n - length xs) (drop (length xs) (xs ++ ys))) (take-append xs ys)
    ∙ ap (λ zs. xs ++ take (n - length xs) zs) (drop-append xs ys)

module _ (cipher : Cipher) where
  -- The loop ends with these bytes stored.
  abbrev pub Ends : ℕ → Bytes → Option (ℕ × UploadSession) → Type 0
  Ends expected all o =
      (t : UploadSession) × (o ≡ some (length all, t)) × HasStored cipher all expected t

  stopped :
      (expected received m : ℕ) (content came : Bytes) (s : UploadSession)
      → received ≡ length content
      → HasStored cipher content expected s
      → take m came ≡ []
      → Ends expected (content ++ take m came) (some (received, s))
  stopped expected received m content came s n k e =
      let whole : content ++ take m came ≡ content =
        ap (λ xs. content ++ xs) e ∙ append-nil content in
      subst (λ xs. Ends expected xs (some (received, s))) (sym whole)
        (s, ap (λ n. some (n, s)) n, k)

  came_later :
      (m : ℕ) (content bytes all rest : Bytes)
      → all ≡ bytes ++ rest
      → length bytes ≤ m
      → (content ++ bytes) ++ take (m - length bytes) rest ≡ content ++ take m all
  came_later m content bytes all rest e h =
      append_assoc content bytes (take (m - length bytes) rest)
      ∙ ap (λ xs. content ++ xs) (sym (ap (take m) e ∙ take-append_ge m bytes rest h))

  -- The loop stores what comes, up to the size.
  pub receive_loop-Ends :
      (fuel expected received : ℕ) (content : Bytes) (cs : List Bytes) (s : UploadSession)
      → AreSome cs
      → expected < 2 ^ 32
      → received ≡ length content
      → expected - received ≤ fuel
      → HasStored cipher content expected s
      → Ends expected
          (content ++ take (expected - received) (concat cs))
          (receive_loop cipher false fuel expected received cs s)
  unfolding receive_loop
  receive_loop-Ends zero expected received content cs s all small n enough k =
      let e : expected - received ≡ 0 = omega arith in
      stopped expected received (expected - received) content (concat cs) s n k
        (ap (λ m. take m (concat cs)) e)
  receive_loop-Ends (suc fuel) expected received content cs s all small n enough k =
      elim (Bool-cases (ltb received expected)) [
        | inr full ↦
            let e : expected - received ≡ 0 = ground arith in
            rw full (
              stopped expected received (expected - received) content (concat cs) s n k
                (ap (λ m. take m (concat cs)) e))
        | inl more ↦
            let lower : received < expected = ground arith in
            let x = recv-IsPart (min (expected - received) 1024) cs (omega arith) all in
            let bytes = x.0 in
            let short = x.3.2 in
            rw (more, x.2)
              (elim x.3.3 [
                | inr over ↦
                    let e : (length bytes == 0) ≡ true = ground arith in
                    rw e (
                      stopped expected received (expected - received) content (concat cs) s n k (
                        ap (take (expected - received)) over.1
                        ∙ take_all (expected - received) [] (omega arith)))
                | inl got ↦
                    let some_more = got.1 in
                    let e : (length bytes == 0) ≡ false = ground arith in
                    let w = session_write-HasStored cipher bytes content expected s got.0 k in
                    let total : u32 (received + length bytes) ≡ received + length bytes =
                      omega arith in
                    let m : expected - (received + length bytes)
                        ≡ expected - received - length bytes =
                      omega arith in
                    let after = record w.0 {
                      fw =
                          set_progress (u8 (u32 ((received + length bytes) * 100) / expected))
                            w.0.fw;
                    } in
                    rw (e, w.1, total)
                      (subst
                        (λ xs. Ends expected xs (
                          receive_loop cipher false fuel expected (received + length bytes) x.1
                            after))
                        (ap (λ m. (content ++ bytes) ++ take m (concat x.1)) m
                          ∙ came_later (expected - received) content bytes (concat cs) (concat x.1)
                              x.3.0 (omega arith))
                        (receive_loop-Ends fuel expected (received + length bytes)
                          (content ++ bytes) x.1 after x.3.1 small
                          (omega (arith, length-append content bytes)) (omega arith)
                          (record {
                            is_active = w.2.is_active;
                            in_file = w.2.in_file;
                            count = w.2.count;
                            expected = w.2.expected;
                            sound = w.2.sound;
                          })))
              ])
      ]
