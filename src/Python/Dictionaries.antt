-- ===== src/Python/Dictionaries.antt =====
-- The laws of `d.get` after `d[k] = v`, on the fields of a JSON object.
use agens_web.Prelude.{◌≡◌, refl, String, str_eq, if◌then◌else◌, some, arith, eq_iff}
use agens_web.Python.Data.{Value, Fields, field, end, get, put}

pub get-put :
    (j k : String) (v : Value) (fs : Fields)
    → get j (put k v fs) ≡ (if str_eq k j then some v else get j fs)
get-put j k v end = refl
get-put j k v (field i w fs) = ground (arith, eq_iff k j, eq_iff i k, eq_iff i j, get-put j k v fs)
