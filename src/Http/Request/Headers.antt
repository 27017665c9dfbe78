-- ===== src/Http/Request/Headers.antt =====
-- http_request.h: the laws of methods, of the header map and of the trimming of header values.
use my_cpp_code.Common.{
  ◌≡◌, refl, arith, true, false, [], ◌∷◌, if◌then◌else◌, Bytes, bytes_eq, bytes_eq→eq,
  bytes_eq_refl,
}
use my_cpp_code.Http.Request.{
  Method, invalid, method_of_string, method_string, is_known, HeaderMap, map_assign, lookup_header,
}

-- The name of a known method is read back as that method, and no other text is accepted.
pub method_of_string-method_string : (m : Method) → method_of_string (method_string m) ≡ m
unfolding method_of_string method_string
method_of_string-method_string invalid = refl
method_of_string-method_string _ = refl

-- A text that is accepted as a method is the name of the method that it is read as.
pub method_string-method_of_string :
    (s : Bytes) → is_known (method_of_string s) ≡ true → method_string (method_of_string s) ≡ s
unfolding method_of_string method_string is_known
method_string-method_of_string s h = ground (
  arith,
  bytes_eq→eq s (method_string Method.get),
  bytes_eq→eq s (method_string Method.post),
  bytes_eq→eq s (method_string Method.head),
  bytes_eq→eq s (method_string Method.put),
  bytes_eq→eq s (method_string Method.delete),
)

pub bytes_eq_trans_false :
    (i j k : Bytes) → bytes_eq i j ≡ true → bytes_eq i k ≡ false → bytes_eq j k ≡ false
bytes_eq_trans_false i j k h n = ground (arith, bytes_eq→eq i j)

-- A header is read as it was last assigned, and the other headers are as before.
pub lookup_header-map_assign :
    (k j v : Bytes) (m : HeaderMap)
    → lookup_header j (map_assign k v m) ≡ (if bytes_eq k j then v else lookup_header j m)
unfolding lookup_header map_assign
lookup_header-map_assign k j v [] = refl
lookup_header-map_assign k j v ((i, w) ∷ m) = ground (
  arith,
  bytes_eq→eq i k,
  bytes_eq→eq i j,
  bytes_eq→eq k j,
  bytes_eq_refl k,
  bytes_eq_refl j,
  lookup_header-map_assign k j v m,
)
