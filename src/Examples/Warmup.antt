-- ===== src/Examples/Warmup.antt =====
-- The words of the text "a b a", where warmup/wc.c has room for eight characters.
use web_server_and_user_leve.Prelude.{List, [], ◌∷◌, arith}
use web_server_and_user_leve.Web.State.{Name}
use web_server_and_user_leve.Warmup.Words.{wc_init}
use web_server_and_user_leve.Warmup.Splits.{Splits}
use web_server_and_user_leve.Warmup.Counts.{occurrences}
use web_server_and_user_leve.Warmup.Table.{Counted, wc_init-Counted}

abbrev text : Name
text = 97 ∷ 32 ∷ 98 ∷ 32 ∷ 97 ∷ []

wc_init-Counted_example :
    (words : List Name) × Splits text words × Counted (wc_init text 8) (λ v. occurrences v words)
wc_init-Counted_example = wc_init-Counted text 8 (omega arith) (omega arith)
