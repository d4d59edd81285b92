-- ===== src/Json.antt =====
-- The dynamic values of the program: Go's `any` as encoding/json decodes it, `map[string]any`, and
-- the accessors of arb/runtime/proceeding/helpers.go that read them.
pub mod Print
pub mod Laws
use adjudication.Prelude.{
  ℕ, Bool, true, false, Option, none, some, List, [], ◌∷◌, ◌++◌, ◌≡◌, if◌then◌else◌, Result, ok,
  err,
}
use adjudication.Prelude.Int.{ℤ, pos}
use adjudication.Prelude.Text.{Text, text_eq, msg}

-- `num` is a JSON number that is no integer, as its literal. An object's keys are distinct, and
-- stand in the order in which `fmt` prints a map.
mutual
  pub data Value : Type 0 where
    null : Value
    bool : Bool → Value
    int : ℤ → Value
    num : Text → Value
    str : Text → Value
    arr : Items → Value
    obj : Fields → Value

  pub data Items : Type 0 where
    nil : Items
    cons : Value → Items → Items

  pub data Fields : Type 0 where
    empty : Fields
    field : Text → Value → Fields → Fields

-- `m[key]`: a key that is missing reads as nil.
unfoldable pub get : Text → Fields → Value
get k empty = null
get k (field j v m) = if text_eq j k then v else get k m

-- `m[key] = value`.
unfoldable pub put : Text → Value → Fields → Fields
put k v empty = field k v empty
put k v (field j w m) = if text_eq j k then field j v m else field j w (put k v m)

-- `len(m) == 0`.
unfoldable pub no_fields : Fields → Bool
no_fields empty = true
no_fields (field k v m) = false

-- `value.(map[string]any)`, with the empty map for anything else.
unfoldable pub map_any : Value → Fields
map_any (obj m) = m
map_any null = empty
map_any (bool b) = empty
map_any (int n) = empty
map_any (num t) = empty
map_any (str t) = empty
map_any (arr xs) = empty

-- The objects among the items of a list.
unfoldable pub objects : Items → List Fields
objects nil = []
objects (cons (obj m) xs) = m ∷ objects xs
objects (cons null xs) = objects xs
objects (cons (bool b) xs) = objects xs
objects (cons (int n) xs) = objects xs
objects (cons (num t) xs) = objects xs
objects (cons (str t) xs) = objects xs
objects (cons (arr ys) xs) = objects xs

unfoldable pub map_list : Value → List Fields
unfolding objects
map_list (arr xs) = objects xs
map_list null = []
map_list (bool b) = []
map_list (int n) = []
map_list (num t) = []
map_list (str t) = []
map_list (obj m) = []

-- `ok, _ := value.(bool)`.
unfoldable pub is_true : Value → Bool
is_true (bool b) = b
is_true null = false
is_true (int n) = false
is_true (num t) = false
is_true (str t) = false
is_true (arr xs) = false
is_true (obj m) = false

-- A float that is a whole number was decoded as `int`.
unfoldable pub required_int : Text → Value → Result Text ℤ
required_int key (int n) = ok n
required_int key null = err (key ++ msg " is required")
required_int key (bool b) = err (key ++ msg " must be an integer")
required_int key (num t) = err (key ++ msg " must be an integer")
required_int key (str t) = err (key ++ msg " must be an integer")
required_int key (arr xs) = err (key ++ msg " must be an integer")
required_int key (obj m) = err (key ++ msg " must be an integer")

unfoldable pub required_int_param : Fields → Text → Result Text ℤ
unfolding required_int get
required_int_param params key = required_int key (get key params)

-- A `[]string` among dynamic values.
unfoldable pub text_items : List Text → Items
text_items [] = nil
text_items (t ∷ ts) = cons (str t) (text_items ts)
