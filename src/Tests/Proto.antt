-- ===== src/Tests/Proto.antt =====
-- encoding/protobuf.go: names, details and operations of Protobuf methods, and the theorems at them.
use yab.Prelude.{List, [], ◌∷◌, Option, none, some, ◌⊎◌, inl, inr, ◌≡◌, ◌↔◌, refl, Text, codes}
use yab.Proto.{Descriptors, split_method, message_name}
use yab.Proto.Names.{IsMethod, split_method_iff}
use yab.Proto.Details.{Detail, bytes, error_details, AreShown, error_details_iff}

say_name : message_name (codes "type.googleapis.com/echo.Say") ≡ codes "echo.Say"
unfolding message_name
say_name = refl

split_method_iff_example :
    (split_method (codes "echo.Echo/Say") ≡ inr (codes "echo.Echo", codes "Say"))
    ↔ IsMethod (codes "echo.Echo/Say") (codes "echo.Echo") (codes "Say")
split_method_iff_example =
    split_method_iff (codes "echo.Echo/Say") (codes "echo.Echo") (codes "Say")

-- No message is known.
abbrev known : Text → Text ⊎ Option Text
known s = inl s

abbrev no_messages : Descriptors Text
no_messages = record {
  service_named = λ s. inl s;
  find_method_by_name = λ s m. none;
  find_message = known;
}

abbrev read_back : Option Text → Text → Text ⊎ Text
read_back d v = inr v

abbrev as_one_detail : Text → Text ⊎ List Detail
as_one_detail s = inr (record { type_url = codes "t/echo.Other"; value = s } ∷ [])

error_details_iff_example :
    (error_details no_messages read_back as_one_detail (some (codes "v"))
      ≡ inr ((codes "t/echo.Other", bytes (codes "v")) ∷ []))
    ↔ AreShown no_messages read_back
        (record { type_url = codes "t/echo.Other"; value = codes "v" } ∷ [])
        ((codes "t/echo.Other", bytes (codes "v")) ∷ [])
error_details_iff_example =
    error_details_iff no_messages read_back as_one_detail b'v' []
      (record { type_url = codes "t/echo.Other"; value = codes "v" } ∷ [])
      ((codes "t/echo.Other", bytes (codes "v")) ∷ []) refl
