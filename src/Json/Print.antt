-- ===== src/Json/Print.antt =====
-- `mapString`: a dynamic value as text. Strings print as they are; other values as `%v` prints them.
use adjudication.Prelude.{
  ℕ, zero, suc, ◌+◌, ◌/◌, ◌%◌, true, false, [], ◌∷◌, ◌++◌, ◌≡◌, refl, if◌then◌else◌, ltb,
}
use adjudication.Prelude.Int.{ℤ, pos, negsuc}
use adjudication.Prelude.Text.{Text, codes, trim_space}
use adjudication.Json.{
  Value, Items, Fields, null, bool, int, num, str, arr, obj, nil, cons, empty, field,
}

-- The decimal digits of a number; the fuel bounds their number.
decimal_from : ℕ → ℕ → Text
decimal_from zero n = []
decimal_from (suc f) n =
    let front = decimal_from f (n / 10) in
    if ltb n 10 then (48 + n) ∷ [] else front ++ (48 + n % 10) ∷ []

unfoldable pub decimal : ℕ → Text
unfolding decimal_from
decimal n = decimal_from (suc n) n

show_int : ℤ → Text
unfolding decimal
show_int (pos n) = decimal n
show_int (negsuc n) = b'-' ∷ decimal (suc n)

mutual
  unfolding show_int

  show : Value → Text
  show null = codes "<nil>"
  show (bool true) = codes "true"
  show (bool false) = codes "false"
  show (int n) = show_int n
  show (num t) = t
  show (str t) = t
  show (arr xs) = b'[' ∷ show_items xs
  show (obj m) = codes "map[" ++ show_fields m

  show_items : Items → Text
  show_items nil = codes "]"
  show_items (cons v nil) = show v ++ codes "]"
  show_items (cons v (cons w xs)) = show v ++ b' ' ∷ show_items (cons w xs)

  show_fields : Fields → Text
  show_fields empty = codes "]"
  show_fields (field k v empty) = k ++ b':' ∷ show v ++ codes "]"
  show_fields (field k v (field j w m)) = k ++ b':' ∷ show v ++ b' ' ∷ show_fields (field j w m)

-- nil is the empty text; anything else is printed and trimmed.
unfoldable pub map_string : Value → Text
unfolding show trim_space
map_string null = []
map_string (str t) = trim_space t
map_string (bool b) = trim_space (show (bool b))
map_string (int n) = trim_space (show (int n))
map_string (num t) = trim_space t
map_string (arr xs) = trim_space (show (arr xs))
map_string (obj m) = trim_space (show (obj m))

map_string_object :
    map_string (obj (field (codes "a") (int (pos 120)) (field (codes "b") (arr nil) empty)))
    ≡ codes "map[a:120 b:[]]"
unfolding map_string
map_string_object = refl
