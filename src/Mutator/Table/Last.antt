-- ===== src/Mutator/Table/Last.antt =====
-- The ordered Das rules of pkg/mutator/dasrules.go, the 226th to the 323rd.
use migp.Base.{List, [], ◌∷◌}
use migp.Base.Int.{pos, negsuc}
use migp.Mutator.Rule.{RDasRule, rule}

abbrev pub das_rules_10 : List RDasRule
das_rules_10 =
    rule "i" (negsuc 0) "H" ""
    ∷ rule "i" (pos 0) "64" ""
    ∷ rule "i" (pos 0) "G" ""
    ∷ rule "s" (pos 0) "e" "3"
    ∷ rule "i" (negsuc 0) "101" ""
    ∷ rule "i" (negsuc 0) "u" ""
    ∷ rule "i" (pos 0) "Z" ""
    ∷ rule "i" (pos 0) "B" ""
    ∷ rule "i" (pos 0) "39" ""
    ∷ rule "i" (pos 0) "boy" ""
    ∷ rule "i" (negsuc 0) "P" ""
    ∷ rule "i" (pos 0) "E" ""
    ∷ rule "i" (negsuc 0) "79" ""
    ∷ rule "i" (negsuc 0) "28" ""
    ∷ rule "i" (pos 0) "O" ""
    ∷ rule "i" (negsuc 0) "30" ""
    ∷ rule "i" (negsuc 0) "L" ""
    ∷ rule "i" (negsuc 0) "69" ""
    ∷ rule "i" (negsuc 0) "D" ""
    ∷ rule "i" (negsuc 0) "31" ""
    ∷ rule "i" (negsuc 0) "52" ""
    ∷ rule "i" (negsuc 0) "456" ""
    ∷ rule "s" (pos 0) "qwer" "1234"
    ∷ rule "s" (pos 0) "5678" "qwer"
    ∷ rule "i" (negsuc 0) "70" ""
    ∷ []

abbrev pub das_rules_11 : List RDasRule
das_rules_11 =
    rule "s" (pos 0) "qwer" "5678"
    ∷ rule "i" (negsuc 0) "41" ""
    ∷ rule "i" (negsuc 0) "S" ""
    ∷ rule "i" (pos 0) "F" ""
    ∷ rule "i" (pos 0) "C" ""
    ∷ rule "i" (negsuc 0) "15" ""
    ∷ rule "s" (pos 0) "qwe" "qaz"
    ∷ rule "s" (pos 0) "qaz" "qwe"
    ∷ rule "i" (negsuc 0) "18" ""
    ∷ rule "i" (negsuc 0) "36" ""
    ∷ rule "i" (negsuc 0) "66" ""
    ∷ rule "i" (negsuc 0) "53" ""
    ∷ rule "i" (negsuc 0) "W" ""
    ∷ rule "i" (negsuc 0) "89" ""
    ∷ rule "i" (pos 0) "48" ""
    ∷ rule "i" (negsuc 0) "I" ""
    ∷ rule "i" (negsuc 0) "17" ""
    ∷ rule "i" (pos 0) "40" ""
    ∷ rule "i" (negsuc 0) "O" ""
    ∷ rule "i" (negsuc 0) "82" ""
    ∷ rule "i" (negsuc 0) "77" ""
    ∷ rule "i" (pos 0) "X" ""
    ∷ rule "i" (negsuc 0) "94" ""
    ∷ rule "i" (negsuc 0) "45" ""
    ∷ rule "i" (negsuc 0) "51" ""
    ∷ []

abbrev pub das_rules_12 : List RDasRule
das_rules_12 =
    rule "i" (negsuc 0) "50" ""
    ∷ rule "i" (pos 0) "ita" ""
    ∷ rule "i" (pos 0) "W" ""
    ∷ rule "i" (negsuc 0) "65" ""
    ∷ rule "i" (negsuc 0) "14" ""
    ∷ rule "i" (negsuc 0) "93" ""
    ∷ rule "i" (negsuc 0) "21" ""
    ∷ rule "s" (pos 0) "1234" "qwer"
    ∷ rule "i" (negsuc 0) "R" ""
    ∷ rule "i" (negsuc 0) "T" ""
    ∷ rule "i" (negsuc 0) "25" ""
    ∷ rule "i" (negsuc 0) "143" ""
    ∷ rule "s" (pos 0) "5678" "1234"
    ∷ rule "i" (negsuc 0) "60" ""
    ∷ rule "i" (negsuc 0) "V" ""
    ∷ rule "i" (negsuc 0) "man" ""
    ∷ rule "i" (negsuc 0) "38" ""
    ∷ rule "i" (negsuc 0) "86" ""
    ∷ rule "i" (negsuc 0) "46" ""
    ∷ rule "i" (negsuc 0) "92" ""
    ∷ rule "i" (negsuc 0) "G" ""
    ∷ rule "i" (negsuc 0) "54" ""
    ∷ rule "i" (pos 0) "M" ""
    ∷ rule "i" (pos 0) "70" ""
    ∷ rule "i" (pos 0) "089" ""
    ∷ []

abbrev pub das_rules_13 : List RDasRule
das_rules_13 =
    rule "i" (negsuc 0) "68" ""
    ∷ rule "i" (pos 0) "62" ""
    ∷ rule "i" (negsuc 0) "78" ""
    ∷ rule "i" (pos 0) "Y" ""
    ∷ rule "i" (negsuc 0) "62" ""
    ∷ rule "i" (negsuc 0) "40" ""
    ∷ rule "i" (negsuc 0) "C" ""
    ∷ rule "i" (pos 0) "H" ""
    ∷ rule "i" (negsuc 0) "B" ""
    ∷ rule "i" (negsuc 0) "X" ""
    ∷ rule "i" (negsuc 0) "26" ""
    ∷ rule "i" (pos 0) "T" ""
    ∷ rule "s" (pos 0) "wsx" "2wsx"
    ∷ rule "s" (pos 0) "2wsx" "wsx"
    ∷ rule "i" (pos 0) "37" ""
    ∷ rule "i" (negsuc 0) "03" ""
    ∷ rule "i" (negsuc 0) "J" ""
    ∷ rule "i" (negsuc 0) "55" ""
    ∷ rule "i" (negsuc 0) "49" ""
    ∷ rule "i" (negsuc 0) "34" ""
    ∷ rule "s" (pos 0) "zxcv" "asdf"
    ∷ rule "s" (pos 0) "asdf" "zxcv"
    ∷ rule "i" (negsuc 0) "N" ""
    ∷ []
