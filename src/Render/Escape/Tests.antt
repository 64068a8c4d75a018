-- ===== src/Render/Escape/Tests.antt =====
-- The escapes of a value with a tag.
use sveltego.Render.Escape.{
  append_escape_text, append_escape_attr, append_escape_text_bytes, append_escape_attr_bytes,
  text_byte, attr_byte, index_text_special, text_loop, index_of,
}
use sveltego.Render.Escape.FastPath.{escape_each, append_escape-escape_each}
use sveltego.Render.Escape.Safety.{all_pass, text_safe, attr_safe, append_escape_safe}
use sveltego.Render.Escape.Unescape.{unescape, unescape-append_escape}
use sveltego.Base.{◌≡◌, refl, true, none, [], ◌++◌, str, str_eq}

tag_escaped : append_escape_text (str "p:") (str "a<b>'") ≡ str "p:a&lt;b&gt;&#39;"
unfolding append_escape_text index_text_special text_loop index_of
tag_escaped = refl

append_escape-escape_each_example :
    (append_escape_text (str "p") (str "a<'") ≡ str "p" ++ escape_each text_byte (str "a<'"))
    × (append_escape_attr (str "p") (str "a<'") ≡ str "p" ++ escape_each attr_byte (str "a<'"))
    × (append_escape_text_bytes (str "p") (str "a<'")
        ≡ str "p" ++ escape_each text_byte (str "a<'"))
    × (append_escape_attr_bytes (str "p") (str "a<'")
        ≡ str "p" ++ escape_each attr_byte (str "a<'"))
append_escape-escape_each_example = append_escape-escape_each (str "p") (str "a<'")

append_escape_safe_example :
    (all_pass text_safe (append_escape_text [] (str "<i>")) ≡ true)
    × (all_pass attr_safe (append_escape_attr [] (str "<i>")) ≡ true)
append_escape_safe_example = append_escape_safe (str "<i>")

other_name_left : unescape none (str "&#93;&amp;&lt") ≡ str "&#93;&&lt"
unfolding unescape str_eq
other_name_left = refl

unescape-append_escape_example :
    (unescape none (append_escape_text [] (str "a&'")) ≡ str "a&'")
    × (unescape none (append_escape_attr [] (str "a&'")) ≡ str "a&'")
unescape-append_escape_example = unescape-append_escape (str "a&'")
