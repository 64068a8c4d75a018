-- ===== src/Server/Script/Tests.antt =====
-- The escapes of server/pipeline.go for `<script>` on a closing tag.
use sveltego.Server.Script.{escape_script_special, write_escaped_script_json}
use sveltego.Server.Script.Reference.{escape_each, is_clean}
use sveltego.Server.Script.Escape.{
  escape_script_special-escape_each, write_escaped_script_json-same,
}
use sveltego.Base.{◌≡◌, refl, true, Str, str}

abbrev closing : Str
closing = str "\"a<b</script><!--\""

escape_script_special-escape_each_example :
    (escape_script_special closing ≡ escape_each closing)
    × (is_clean (escape_script_special closing) ≡ true)
escape_script_special-escape_each_example = escape_script_special-escape_each closing

write_escaped_script_json-same_example : write_escaped_script_json closing ≡ closing
write_escaped_script_json-same_example = write_escaped_script_json-same closing

escape_test : escape_script_special closing ≡ str "\"a<b\\u003c/script>\\u003c!--\""
unfolding escape_script_special
escape_test = refl
