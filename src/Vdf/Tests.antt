-- ===== src/Vdf/Tests.antt =====
-- Texts that the parser reads.
use docker_vrising.Prelude.{◌≡◌, refl, ◌∷◌, [], codes, length, Bytes, ◌++◌}
use docker_vrising.Prelude.Result.{ok}
use docker_vrising.Vdf.{read_object, read_string}
use docker_vrising.Vdf.Total.{Consumes, read_object-Consumes}
use docker_vrising.Vdf.Strings.{quoted, read_string-quoted}

abbrev object : Bytes
object = codes "{ " ++ quoted (codes "appid") (codes " " ++ quoted (codes "1829350") (codes " }"))

read_object-Consumes_example : Consumes (length object) (read_object object)
read_object-Consumes_example = read_object-Consumes object

-- A backslash, a newline and a quote are escaped.
abbrev text : Bytes
text = codes "C:" ++ (92 ∷ 10 ∷ b'"' ∷ [])

read_string-quoted_example : read_string (quoted text (codes " }")) ≡ ok (text, codes " }")
read_string-quoted_example = read_string-quoted text (codes " }") refl
