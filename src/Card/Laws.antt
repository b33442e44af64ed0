-- ===== src/Card/Laws.antt =====
-- Files that are stored, removed and looked up.
use miri_tool_v.Base.{
  ◌≡◌, ◌≢◌, refl, ap, sym, ◌∙◌, true, false, Bytes, [], ◌∷◌, none, some, if◌then◌else◌, ==_refl,
  Bool-cases, inl, inr, arith,
}
use miri_tool_v.FwTypes.{same_text}
use miri_tool_v.Card.{Files, content_of, remove, store}

pub same_text_refl : (xs : Bytes) → same_text xs xs ≡ true
same_text_refl [] = refl
same_text_refl (x ∷ xs) = rw (==_refl x) (same_text_refl xs)

pub same_text→eq : (xs ys : Bytes) → same_text xs ys ≡ true → xs ≡ ys
same_text→eq [] [] h = refl
same_text→eq [] (y ∷ ys) h = cc
same_text→eq (x ∷ xs) [] h = cc
same_text→eq (x ∷ xs) (y ∷ ys) h = ground (arith, same_text→eq xs ys)

pub ne→same_text : (xs ys : Bytes) → xs ≢ ys → same_text xs ys ≡ false
ne→same_text xs ys h = elim (Bool-cases (same_text xs ys)) [
  | inl same ↦ absurd (h (same_text→eq xs ys same))
  | inr other ↦ other
]

pub content_of-remove : (path : Bytes) (files : Files) → content_of path (remove path files) ≡ none
unfolding content_of remove
content_of-remove path [] = refl
content_of-remove path ((p, content) ∷ files) = elim (Bool-cases (same_text p path)) [
  | inl same ↦ rw same (content_of-remove path files)
  | inr other ↦ rw (other, other) (content_of-remove path files)
]

pub content_of-remove_ne :
    (path other : Bytes) (files : Files)
    → path ≢ other
    → content_of other (remove path files) ≡ content_of other files
unfolding content_of remove
content_of-remove_ne path other [] h = refl
content_of-remove_ne path other ((p, content) ∷ files) h = elim (Bool-cases (same_text p path)) [
  | inl same ↦
      let e = same_text→eq p path same in
      let miss = ne→same_text p other (λ q. h (sym e ∙ q)) in
      rw (same, miss) (content_of-remove_ne path other files h)
  | inr kept ↦ rw kept (
      ap (λ later. if same_text p other then some content else later)
        (content_of-remove_ne path other files h))
]

pub content_of-store :
    (path content : Bytes) (files : Files)
    → content_of path (store path content files) ≡ some content
unfolding content_of store
content_of-store path content files = rw (same_text_refl path)

pub content_of-store_ne :
    (path other content : Bytes) (files : Files)
    → path ≢ other
    → content_of other (store path content files) ≡ content_of other files
unfolding content_of store
content_of-store_ne path other content files h =
    rw (ne→same_text path other h) (content_of-remove_ne path other files h)
