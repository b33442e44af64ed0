-- ===== src/Manager/Search.antt =====
-- The search for a file on the card by its name and its type.
use miri_tool_v.Base.{
  ◌≡◌, refl, sym, ap, ◌∙◌, Bool, true, false, not, ◌&&◌, Bytes, List, [], ◌∷◌, Option, none, some,
  length, ◌==◌, if◌then◌else◌, ◌⊎◌, inl, inr, arith,
}
use miri_tool_v.FwTypes.{strcasecmp_equal}
use miri_tool_v.Manager.{
  NameType, filename_ext, name_buf, entry_found, find_in, find_sdmmc_file, or_first,
}

-- What is found is the name and the type of one of the entries.
abbrev pub FoundIn : NameType → List Bytes → Type 0
FoundIn f [] = ⊥
FoundIn f (e ∷ es) = (f ≡ entry_found e) ⊎ FoundIn f es

-- Some entry has a type of three characters, the name and the type, but for the case of letters.
abbrev pub HasExact : Bytes → Bytes → List Bytes → Type 0
HasExact name type [] = ⊥
HasExact name type (e ∷ es) =
    ((length (filename_ext e) ≡ 3)
      × (strcasecmp_equal (name_buf e) name ≡ true)
      × (strcasecmp_equal (filename_ext e) type ≡ true))
    ⊎ HasExact name type es

-- A result: an entry with the name, or the fallback from before.
abbrev Sound : Bytes → List Bytes → Option NameType → NameType → Type 0
Sound name es fallback f =
    (FoundIn f es × (strcasecmp_equal f.name name ≡ true)) ⊎ (fallback ≡ some f)

some_injective : (g f : NameType) → some g ≡ some f → g ≡ f
some_injective g f e = ap (λ o. value o) e
  where
    value : Option NameType → NameType
    value none = g
    value (some h) = h

find_in-Sound :
    (es : List Bytes) (name type : Bytes) (fallback : Option NameType) (f : NameType)
    → find_in es name type fallback ≡ some f
    → Sound name es fallback f
unfolding find_in
find_in-Sound [] name type fallback f e = inr e
find_in-Sound (x ∷ es) name type fallback f e =
    go (λ fb. find_in-Sound es name type fb f) (length (filename_ext x) == 3)
      (strcasecmp_equal (name_buf x) name) (strcasecmp_equal (filename_ext x) type) refl e
  where
    this :
        some (entry_found x) ≡ some f
        → strcasecmp_equal (name_buf x) name ≡ true
        → Sound name (x ∷ es) fallback f
    this e s =
        let same = some_injective (entry_found x) f e in
        inl (inl (sym same), ap (λ (g : NameType). strcasecmp_equal g.name name) (sym same) ∙ s)

    widen :
        (fb : Option NameType)
        → Sound name es fb f
        → (fb ≡ some f → Sound name (x ∷ es) fallback f)
        → Sound name (x ∷ es) fallback f
    widen fb (inl (found, same)) k = inl (inr found, same)
    widen fb (inr e) k = k e

    kept :
        (fb : Option NameType) (same : Bool)
        → fb ≡ fallback
        → strcasecmp_equal (name_buf x) name ≡ same
        → or_first fb (entry_found x) same ≡ some f
        → Sound name (x ∷ es) fallback f
    kept (some g) same q s e = inr (sym q ∙ e)
    kept none true q s e = this e s
    kept none false q s e = inr (sym q ∙ e)

    go :
        ((fb : Option NameType) → find_in es name type fb ≡ some f → Sound name es fb f)
        → (three same typed : Bool) → strcasecmp_equal (name_buf x) name ≡ same
        → (if not three
            then find_in es name type fallback
            else if same && typed
            then some (entry_found x)
            else find_in es name type (or_first fallback (entry_found x) same))
          ≡ some f
        → Sound name (x ∷ es) fallback f
    go ih false same typed s e = widen fallback (ih fallback e) (λ q. inr q)
    go ih true true true s e = this e s
    go ih true true false s e =
        widen (or_first fallback (entry_found x) true)
          (ih (or_first fallback (entry_found x) true) e) (kept fallback true refl s)
    go ih true false typed s e =
        widen (or_first fallback (entry_found x) false)
          (ih (or_first fallback (entry_found x) false) e) (kept fallback false refl s)

find_in-HasExact :
    (es : List Bytes) (name type : Bytes) (fallback : Option NameType)
    → HasExact name type es
    → (f : NameType) × (find_in es name type fallback ≡ some f)
      × (strcasecmp_equal f.type type ≡ true)
unfolding find_in
find_in-HasExact [] name type fallback h = absurd h
find_in-HasExact (x ∷ es) name type fallback (inl (three, same, typed)) =
    (entry_found x, rw (three, same, typed), typed)
find_in-HasExact (x ∷ es) name type fallback (inr h) =
    go (λ fb. find_in-HasExact es name type fb h) (length (filename_ext x) == 3)
      (strcasecmp_equal (name_buf x) name) (strcasecmp_equal (filename_ext x) type) refl
  where
    Result : Option NameType → Type 0
    Result o = (f : NameType) × (o ≡ some f) × (strcasecmp_equal f.type type ≡ true)

    go :
        ((fb : Option NameType) → Result (find_in es name type fb))
        → (three same typed : Bool) → strcasecmp_equal (filename_ext x) type ≡ typed
        → Result (
            if not three
            then find_in es name type fallback
            else if same && typed
            then some (entry_found x)
            else find_in es name type (or_first fallback (entry_found x) same))
    go ih false same typed t = ih fallback
    go ih true true true t = (entry_found x, refl, t)
    go ih true true false t = ih (or_first fallback (entry_found x) true)
    go ih true false typed t = ih (or_first fallback (entry_found x) false)

-- What `fw_find_sdmmc_file` finds is one of the entries, with the name that is asked for, but for
-- the case of letters.
find_sdmmc_file-FoundIn :
    (es : List Bytes) (name type : Bytes) (f : NameType)
    → find_sdmmc_file es name type ≡ some f
    → FoundIn f es × (strcasecmp_equal f.name name ≡ true)
unfolding find_sdmmc_file
find_sdmmc_file-FoundIn es name type f e = elim (find_in-Sound es name type none f e) [
  | inl found ↦ found
  | inr q ↦ absurd (grind arith)
]

-- If an entry of the directory has the name and the type that are asked for, the type having three
-- characters, one of the entries with this name and type is found.
pub find_sdmmc_file-HasExact :
    (es : List Bytes) (name type : Bytes)
    → HasExact name type es
    → (f : NameType) × (find_sdmmc_file es name type ≡ some f)
      × FoundIn f es
      × (strcasecmp_equal f.name name ≡ true)
      × (strcasecmp_equal f.type type ≡ true)
unfolding find_sdmmc_file
find_sdmmc_file-HasExact es name type h =
    let (f, found, typed) = find_in-HasExact es name type none h in
    let (among, named) = find_sdmmc_file-FoundIn es name type f found in
    (f, found, among, named, typed)
