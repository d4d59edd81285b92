-- ===== src/Json/Laws.antt =====
-- Maps: what is read after a write.
use adjudication.Prelude.{◌≡◌, refl, if◌then◌else◌, arith}
use adjudication.Prelude.Text.{Text, text_eq, text_eq_iff}
use adjudication.Json.{Value, Fields, empty, field, get, put}

pub get-put :
    (k j : Text) (v : Value) (m : Fields) → get j (put k v m) ≡ (if text_eq k j then v else get j m)
unfolding get put
get-put k j v empty = refl
get-put k j v (field i w m) =
    ground (arith, text_eq_iff k j, text_eq_iff i k, text_eq_iff i j, get-put k j v m)
