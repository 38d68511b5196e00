-- ===== src/Translator/Reorder.antt =====
-- The order of an access unit (pkg/media/translator.go).
use reolinkproxy.Base.{
  ℕ, ◌≡◌, refl, List, [], ◌∷◌, ◌++◌, Bool, true, false, ltb, arith, length, get_or, All, Bool-cases,
  inl, inr, if◌then◌else◌,
}
use mathlib.Core.List.{Perm, perm_middle}
use mathlib.Core.List.Perm
use reolinkproxy.Translator.{
  Nal, partition_nals, reorder_h265_nals_for_access_unit, reorder_h264_nals_for_access_unit,
  h265_is_slice_nal, h265_nal_unit_type, h264_is_slice_nal, h264_nal_unit_type,
}

-- The units long enough to have a header.
abbrev pub long_enough : ℕ → List Nal → List Nal
long_enough least [] = []
long_enough least (n ∷ nalus) =
    let out = long_enough least nalus in if ltb (length n) least then out else n ∷ out

module _ (least : ℕ) (is_slice : ℕ → Bool) where
  partition_kinds :
      (nalus : List Nal)
      → let parts = partition_nals least is_slice nalus in
        All (λ n. is_slice (get_or n 0 0) ≡ false) parts.0
        × All (λ n. is_slice (get_or n 0 0) ≡ true) parts.1
  unfolding partition_nals
  partition_kinds [] = (tt, tt)
  partition_kinds (n ∷ nalus) = ground (arith, partition_kinds nalus)

  partition_perm :
      (nalus : List Nal)
      → let parts = partition_nals least is_slice nalus in
        Perm (parts.0 ++ parts.1) (long_enough least nalus)
  unfolding partition_nals
  partition_perm [] = Perm.refl []
  partition_perm (n ∷ nalus) = elim (Bool-cases (ltb (length n) least)) [
    | inl short ↦ rw short (partition_perm nalus)
    | inr full ↦ elim (Bool-cases (is_slice (get_or n 0 0))) [
      | inl slice ↦
          rw (full, slice)
            (Perm.trans
              (perm_middle (partition_nals least is_slice nalus).0
                (partition_nals least is_slice nalus).1)
              (Perm.cons n (partition_perm nalus)))
      | inr other ↦ rw (full, other) (Perm.cons n (partition_perm nalus))
    ]
  ]

-- In a reordered H.265 access unit every unit that is no slice comes before every slice, and the
-- units are those of two bytes or more that came in, each as often.
pub reorder_h265_lem :
    (nalus : List Nal)
    → (before : List Nal) × (slices : List Nal) × (reorder_h265_nals_for_access_unit nalus
        ≡ before ++ slices)
      × All (λ n. h265_is_slice_nal (h265_nal_unit_type (get_or n 0 0)) ≡ false) before
      × All (λ n. h265_is_slice_nal (h265_nal_unit_type (get_or n 0 0)) ≡ true) slices
      × Perm (before ++ slices) (long_enough 2 nalus)
unfolding reorder_h265_nals_for_access_unit
reorder_h265_lem nalus =
    let test = λ (header0 : ℕ). h265_is_slice_nal (h265_nal_unit_type header0) in
    let parts = partition_nals 2 test nalus in
    let (others, slices) = partition_kinds 2 test nalus in
    (parts.0, parts.1, refl, others, slices, partition_perm 2 test nalus)

-- The same for an H.264 access unit and the units of a byte or more.
pub reorder_h264_lem :
    (nalus : List Nal)
    → (before : List Nal) × (slices : List Nal) × (reorder_h264_nals_for_access_unit nalus
        ≡ before ++ slices)
      × All (λ n. h264_is_slice_nal (h264_nal_unit_type (get_or n 0 0)) ≡ false) before
      × All (λ n. h264_is_slice_nal (h264_nal_unit_type (get_or n 0 0)) ≡ true) slices
      × Perm (before ++ slices) (long_enough 1 nalus)
unfolding reorder_h264_nals_for_access_unit
reorder_h264_lem nalus =
    let test = λ (header0 : ℕ). h264_is_slice_nal (h264_nal_unit_type header0) in
    let parts = partition_nals 1 test nalus in
    let (others, slices) = partition_kinds 1 test nalus in
    (parts.0, parts.1, refl, others, slices, partition_perm 1 test nalus)
