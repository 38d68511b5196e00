-- ===== src/Motion/Texts.antt =====
-- Texts, as the lists of their code points, and the names in the pushes of pkg/baichuan/motion.go.
use reolinkproxy.Base.{ℕ, List, [], ◌∷◌, ◌++◌, Bool, true, false, ◌&&◌, ◌||◌, ◌==◌, if◌then◌else◌}

abbrev pub Text : Type 0
Text = List ℕ

abbrev pub text_eq : Text → Text → Bool
text_eq [] [] = true
text_eq [] (b ∷ bs) = false
text_eq (a ∷ as_) [] = false
text_eq (a ∷ as_) (b ∷ bs) = a == b && text_eq as_ bs

-- `slices.Contains` for texts.
abbrev pub elem : Text → List Text → Bool
elem t [] = false
elem t (u ∷ us) = text_eq t u || elem t us

-- `appendNew`
unfoldable pub append_new : List Text → List Text → List Text
append_new list [] = list
append_new list (item ∷ items) =
    append_new (if elem item list then list else list ++ item ∷ []) items

abbrev pub starts_with : Text → Text → Bool
starts_with t [] = true
starts_with [] (p ∷ ps) = false
starts_with (c ∷ cs) (p ∷ ps) = c == p && starts_with cs ps

-- `strings.Contains`
unfoldable pub contains_text : Text → Text → Bool
contains_text [] part = starts_with [] part
contains_text (c ∷ cs) part = starts_with (c ∷ cs) part || contains_text cs part

unfoldable pub is_separator : ℕ → Bool
is_separator c = c == b'&' || (c == b',' || c == b' ')

abbrev pub end_field : Text → List Text → List Text
end_field [] fields = fields
end_field (c ∷ cs) fields = (c ∷ cs) ∷ fields

-- `strings.FieldsFunc` with the separators, from within a field that begins with `field`.
unfoldable pub split_fields : Text → Text → List Text
unfolding is_separator
split_fields field [] = end_field field []
split_fields field (c ∷ cs) =
    let after = split_fields [] cs in
    let within = split_fields (field ++ c ∷ []) cs in
    if is_separator c then end_field field after else within

abbrev pub none_name : Text
none_name = b'n' ∷ b'o' ∷ b'n' ∷ b'e' ∷ []

abbrev pub other_name : Text
other_name = b'o' ∷ b't' ∷ b'h' ∷ b'e' ∷ b'r' ∷ []

abbrev pub visitor_name : Text
visitor_name = b'v' ∷ b'i' ∷ b's' ∷ b'i' ∷ b't' ∷ b'o' ∷ b'r' ∷ []

abbrev pub md_name : Text
md_name = b'M' ∷ b'D' ∷ []

abbrev pub person_name : Text
person_name = b'p' ∷ b'e' ∷ b'r' ∷ b's' ∷ b'o' ∷ b'n' ∷ []

abbrev pub people_name : Text
people_name = b'p' ∷ b'e' ∷ b'o' ∷ b'p' ∷ b'l' ∷ b'e' ∷ []

abbrev pub vehicle_name : Text
vehicle_name = b'v' ∷ b'e' ∷ b'h' ∷ b'i' ∷ b'c' ∷ b'l' ∷ b'e' ∷ []

abbrev pub motor_vehicle_name : Text
motor_vehicle_name = b'm' ∷ b'o' ∷ b't' ∷ b'o' ∷ b'r' ∷ b' ' ∷ vehicle_name

abbrev pub animal_name : Text
animal_name = b'a' ∷ b'n' ∷ b'i' ∷ b'm' ∷ b'a' ∷ b'l' ∷ []

abbrev pub dog_cat_name : Text
dog_cat_name = b'd' ∷ b'o' ∷ b'g' ∷ b'_' ∷ b'c' ∷ b'a' ∷ b't' ∷ []
