-- ===== src/Bridge/Stores.antt =====
-- The maps of pkg/bridge/rtsp.go and pkg/bridge/bridge.go: what is left under a key.
use reolinkproxy.Base.{
  List, [], ◌∷◌, ◌++◌, false, if◌then◌else◌, none, some, ◌≡◌, refl, ◌∙◌, ap, Bool-cases, inl, inr,
  arith,
}
use reolinkproxy.Motion.Texts.{Text, text_eq, elem}
use reolinkproxy.Motion.Types.{text_eq_sound, text_eq_refl, text_eq_sym}
use reolinkproxy.Bridge.Paths.{trim_prefix}
use reolinkproxy.Bridge.Served.{Store, lookup, delete, insert, delete_all}

-- The keys under which paths are stored.
abbrev pub keys_of : List Text → List Text
keys_of [] = []
keys_of (path ∷ paths) = trim_prefix path ∷ keys_of paths

pub keys_of-snoc :
    (paths : List Text) (p : Text) → keys_of (paths ++ p ∷ []) ≡ keys_of paths ++ trim_prefix p ∷ []
keys_of-snoc [] p = refl
keys_of-snoc (q ∷ paths) p = rw (keys_of-snoc paths p) refl

pub elem-snoc_false :
    (t p : Text) (ts : List Text)
    → elem t (ts ++ p ∷ []) ≡ false
    → (elem t ts ≡ false) × (text_eq t p ≡ false)
elem-snoc_false t p [] e = (refl, ground (arith, e))
elem-snoc_false t p (u ∷ ts) e = elim (Bool-cases (text_eq t u)) [
  | inl same ↦ absurd (ground (arith, e, same))
  | inr other ↦ rw other (elem-snoc_false t p ts (rw other at e))
]

module _ {V : Type 0} where
  pub lookup-delete :
      (key k : Text) (store : Store V)
      → lookup k (delete key store) ≡ (if text_eq k key then none else lookup k store)
  unfolding lookup delete
  lookup-delete key k [] = ground arith
  lookup-delete key k ((j, v) ∷ store) = elim (Bool-cases (text_eq key j)) [
    | inl same ↦
        ground (arith, lookup-delete key k store, same, ap (text_eq k) (text_eq_sound key j same))
    | inr other ↦ elim (Bool-cases (text_eq k j)) [
      | inr far ↦ rw (other, far) (lookup-delete key k store)
      | inl near ↦
          let apart : text_eq k key ≡ false =
            text_eq_sym key k (ap (text_eq key) (text_eq_sound k j near) ∙ other) in
          rw (other, near, apart) refl
    ]
  ]

  pub lookup-insert :
      (key k : Text) (v : V) (store : Store V)
      → lookup k (insert key v store) ≡ (if text_eq k key then some v else lookup k store)
  unfolding lookup
  lookup-insert key k v store = ground (arith, lookup-delete key k store)

  pub lookup-delete_all :
      (paths : List Text) (k : Text) (store : Store V)
      → lookup k (delete_all paths store)
        ≡ (if elem k (keys_of paths) then none else lookup k store)
  lookup-delete_all [] k store = refl
  lookup-delete_all (p ∷ paths) k store =
      lookup-delete_all paths k (delete (trim_prefix p) store)
      ∙ ground (arith, lookup-delete (trim_prefix p) k store)

  delete_absent :
      (key : Text) (store : Store V) → lookup key store ≡ none → delete key store ≡ store
  unfolding lookup delete
  delete_absent key [] e = refl
  delete_absent key ((j, v) ∷ store) e = elim (Bool-cases (text_eq key j)) [
    | inl same ↦ absurd (ground (arith, e, same))
    | inr other ↦ rw (other, delete_absent key store (rw other at e)) refl
  ]

  pub delete-insert :
      (key : Text) (v : V) (store : Store V)
      → lookup key store ≡ none
      → delete key (insert key v store) ≡ store
  unfolding delete
  delete-insert key v store e =
      rw (text_eq_refl key, delete_absent key store e, delete_absent key store e) refl

  pub delete_twice :
      (key : Text) (v : V) (store : Store V) → delete key (insert key v store) ≡ delete key store
  unfolding delete
  delete_twice key v store = rw (text_eq_refl key) (
      delete_absent key (delete key store)
        (lookup-delete key key store ∙ rw (text_eq_refl key) refl))
