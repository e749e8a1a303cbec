-- ===== src/Mutator/Table/Middle.antt =====
-- The ordered Das rules of pkg/mutator/dasrules.go, the 126th to the 225th.
use migp.Base.{List, [], ◌∷◌}
use migp.Base.Int.{pos, negsuc}
use migp.Mutator.Rule.{RDasRule, rule}

abbrev pub das_rules_6 : List RDasRule
das_rules_6 =
    rule "i" (pos 0) "Q" ""
    ∷ rule "i" (pos 0) "87" ""
    ∷ rule "i" (pos 0) "79" ""
    ∷ rule "i" (pos 0) "86" ""
    ∷ rule "i" (pos 0) "93" ""
    ∷ rule "i" (pos 0) "96" ""
    ∷ rule "i" (negsuc 0) "e" ""
    ∷ rule "i" (pos 0) "65" ""
    ∷ rule "i" (pos 0) "15" ""
    ∷ rule "i" (pos 0) "25" ""
    ∷ rule "i" (negsuc 0) "7" ""
    ∷ rule "i" (pos 0) "44" ""
    ∷ rule "i" (negsuc 0) "4" ""
    ∷ rule "i" (pos 0) "97" ""
    ∷ rule "i" (negsuc 0) "05" ""
    ∷ rule "i" (negsuc 0) "09" ""
    ∷ rule "i" (negsuc 0) "8" ""
    ∷ rule "i" (negsuc 0) "2" ""
    ∷ rule "i" (pos 0) "83" ""
    ∷ rule "i" (pos 0) "57" ""
    ∷ rule "i" (pos 0) "50" ""
    ∷ rule "i" (pos 0) "94" ""
    ∷ rule "i" (pos 0) "54" ""
    ∷ rule "i" (negsuc 0) "11" ""
    ∷ rule "i" (negsuc 0) "08" ""
    ∷ []

abbrev pub das_rules_7 : List RDasRule
das_rules_7 =
    rule "i" (pos 0) "61" ""
    ∷ rule "i" (pos 0) "20" ""
    ∷ rule "i" (pos 0) "14" ""
    ∷ rule "i" (negsuc 0) "v" ""
    ∷ rule "i" (pos 0) "81" ""
    ∷ rule "i" (pos 0) "74" ""
    ∷ rule "i" (negsuc 0) "5" ""
    ∷ rule "i" (pos 0) "76" ""
    ∷ rule "i" (pos 0) "34" ""
    ∷ rule "i" (pos 0) "18" ""
    ∷ rule "i" (pos 0) "82" ""
    ∷ rule "i" (pos 0) "41" ""
    ∷ rule "i" (pos 0) "04" ""
    ∷ rule "i" (pos 0) "K" ""
    ∷ rule "i" (negsuc 0) "06" ""
    ∷ rule "i" (pos 0) "S" ""
    ∷ rule "i" (pos 0) "V" ""
    ∷ rule "i" (negsuc 0) "007" ""
    ∷ rule "i" (pos 0) "75" ""
    ∷ rule "i" (negsuc 0) "02" ""
    ∷ rule "i" (negsuc 0) "9" ""
    ∷ rule "i" (pos 0) "28" ""
    ∷ rule "i" (pos 0) "53" ""
    ∷ rule "s" (pos 0) "asdf" "1234"
    ∷ rule "s" (pos 0) "1234" "asdf"
    ∷ []

abbrev pub das_rules_8 : List RDasRule
das_rules_8 =
    rule "i" (pos 0) "N" ""
    ∷ rule "i" (pos 0) "84" ""
    ∷ rule "i" (negsuc 0) "20" ""
    ∷ rule "i" (pos 0) "27" ""
    ∷ rule "i" (negsuc 0) "Q" ""
    ∷ rule "i" (negsuc 0) "13" ""
    ∷ rule "i" (pos 0) "D" ""
    ∷ rule "i" (pos 0) "J" ""
    ∷ rule "i" (pos 0) "26" ""
    ∷ rule "i" (pos 0) "52" ""
    ∷ rule "i" (pos 0) "29" ""
    ∷ rule "i" (pos 0) "30" ""
    ∷ rule "i" (pos 0) "49" ""
    ∷ rule "i" (pos 0) "58" ""
    ∷ rule "i" (negsuc 0) "07" ""
    ∷ rule "i" (pos 0) "38" ""
    ∷ rule "i" (negsuc 0) "Z" ""
    ∷ rule "i" (pos 0) "31" ""
    ∷ rule "i" (negsuc 0) "o" ""
    ∷ rule "i" (pos 0) "72" ""
    ∷ rule "i" (pos 0) "63" ""
    ∷ rule "i" (pos 0) "420" ""
    ∷ rule "s" (pos 0) "3" "e"
    ∷ rule "i" (pos 0) "P" ""
    ∷ rule "i" (negsuc 0) "04" ""
    ∷ []

abbrev pub das_rules_9 : List RDasRule
das_rules_9 =
    rule "i" (pos 0) "32" ""
    ∷ rule "i" (negsuc 0) "85" ""
    ∷ rule "i" (pos 0) "R" ""
    ∷ rule "i" (pos 0) "47" ""
    ∷ rule "i" (negsuc 0) "16" ""
    ∷ rule "i" (negsuc 0) "i" ""
    ∷ rule "i" (pos 0) "71" ""
    ∷ rule "i" (pos 0) "51" ""
    ∷ rule "i" (negsuc 0) "12" ""
    ∷ rule "i" (negsuc 0) "22" ""
    ∷ rule "i" (negsuc 0) "87" ""
    ∷ rule "i" (pos 0) "man" ""
    ∷ rule "i" (pos 0) "73" ""
    ∷ rule "i" (pos 0) "46" ""
    ∷ rule "i" (pos 0) "35" ""
    ∷ rule "i" (pos 0) "L" ""
    ∷ rule "i" (pos 0) "59" ""
    ∷ rule "i" (negsuc 0) "98" ""
    ∷ rule "i" (pos 0) "68" ""
    ∷ rule "i" (negsuc 0) "32" ""
    ∷ rule "i" (pos 0) "60" ""
    ∷ rule "i" (negsuc 0) "K" ""
    ∷ rule "i" (pos 0) "42" ""
    ∷ rule "i" (negsuc 0) "27" ""
    ∷ rule "i" (pos 0) "36" ""
    ∷ []
