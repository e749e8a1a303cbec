-- ===== src/Mutator/Table/First.antt =====
-- The ordered Das rules of pkg/mutator/dasrules.go, the 1st to the 125th.
use migp.Base.{List, [], ◌∷◌}
use migp.Base.Int.{pos, negsuc}
use migp.Mutator.Rule.{RDasRule, rule}

abbrev pub das_rules_1 : List RDasRule
das_rules_1 =
    rule "c" (pos 0) "" ""
    ∷ rule "d" (negsuc 0) "" ""
    ∷ rule "d" (negsuc 1) "" ""
    ∷ rule "d" (negsuc 2) "" ""
    ∷ rule "i" (negsuc 0) "0" ""
    ∷ rule "i" (pos 0) "1" ""
    ∷ rule "i" (negsuc 0) "a" ""
    ∷ rule "i" (negsuc 0) "q" ""
    ∷ rule "i" (pos 0) "0" ""
    ∷ rule "d" (pos 1) "" ""
    ∷ rule "i" (pos 0) "a" ""
    ∷ rule "i" (pos 0) "5" ""
    ∷ rule "i" (pos 0) "123" ""
    ∷ rule "d" (pos 2) "" ""
    ∷ rule "i" (pos 0) "2" ""
    ∷ rule "i" (pos 0) "7" ""
    ∷ rule "i" (negsuc 0) "z" ""
    ∷ rule "i" (pos 0) "9" ""
    ∷ rule "d" (pos 3) "" ""
    ∷ rule "i" (negsuc 0) "00" ""
    ∷ rule "i" (pos 0) "6" ""
    ∷ rule "i" (pos 0) "3" ""
    ∷ rule "i" (pos 0) "8" ""
    ∷ rule "i" (pos 0) "11" ""
    ∷ rule "i" (pos 0) "4" ""
    ∷ []

abbrev pub das_rules_2 : List RDasRule
das_rules_2 =
    rule "i" (negsuc 0) "w" ""
    ∷ rule "i" (pos 0) "b" ""
    ∷ rule "i" (pos 0) "q" ""
    ∷ rule "i" (pos 0) "00" ""
    ∷ rule "i" (pos 0) "99" ""
    ∷ rule "i" (pos 0) "12" ""
    ∷ rule "i" (pos 0) "s" ""
    ∷ rule "i" (pos 0) "98" ""
    ∷ rule "i" (negsuc 0) "1" ""
    ∷ rule "i" (negsuc 0) "s" ""
    ∷ rule "i" (pos 0) "78" ""
    ∷ rule "i" (negsuc 0) "l" ""
    ∷ rule "i" (pos 0) "p" ""
    ∷ rule "i" (pos 0) "89" ""
    ∷ rule "i" (pos 0) "000" ""
    ∷ rule "i" (pos 0) "90" ""
    ∷ rule "i" (pos 0) "z" ""
    ∷ rule "i" (pos 0) "10" ""
    ∷ rule "i" (pos 0) "23" ""
    ∷ rule "i" (pos 0) "01" ""
    ∷ rule "i" (pos 0) "m" ""
    ∷ rule "i" (pos 0) "r" ""
    ∷ rule "i" (negsuc 0) "x" ""
    ∷ rule "i" (negsuc 0) "000" ""
    ∷ rule "i" (pos 0) "k" ""
    ∷ []

abbrev pub das_rules_3 : List RDasRule
das_rules_3 =
    rule "i" (pos 0) "e" ""
    ∷ rule "i" (pos 0) "22" ""
    ∷ rule "i" (pos 0) "f" ""
    ∷ rule "i" (pos 0) "n" ""
    ∷ rule "i" (pos 0) "88" ""
    ∷ rule "i" (pos 0) "w" ""
    ∷ rule "i" (negsuc 0) "19" ""
    ∷ rule "i" (negsuc 0) "c" ""
    ∷ rule "i" (pos 0) "13" ""
    ∷ rule "i" (negsuc 0) "m" ""
    ∷ rule "i" (negsuc 0) "p" ""
    ∷ rule "i" (pos 0) "456" ""
    ∷ rule "i" (pos 0) "21" ""
    ∷ rule "i" (negsuc 0) "y" ""
    ∷ rule "i" (pos 0) "777" ""
    ∷ rule "i" (pos 0) "d" ""
    ∷ rule "i" (negsuc 0) "b" ""
    ∷ rule "i" (negsuc 0) "10" ""
    ∷ rule "s" (pos 0) "0" "o"
    ∷ rule "i" (pos 0) "08" ""
    ∷ rule "i" (pos 0) "07" ""
    ∷ rule "i" (negsuc 0) "g" ""
    ∷ rule "i" (pos 0) "007" ""
    ∷ rule "i" (negsuc 0) "d" ""
    ∷ rule "i" (pos 0) "y" ""
    ∷ []

abbrev pub das_rules_4 : List RDasRule
das_rules_4 =
    rule "i" (negsuc 0) "h" ""
    ∷ rule "i" (pos 0) "77" ""
    ∷ rule "i" (pos 0) "t" ""
    ∷ rule "i" (negsuc 0) "k" ""
    ∷ rule "i" (pos 0) "55" ""
    ∷ rule "i" (negsuc 0) "f" ""
    ∷ rule "i" (pos 0) "09" ""
    ∷ rule "i" (pos 0) "c" ""
    ∷ rule "i" (pos 0) "A" ""
    ∷ rule "i" (pos 0) "56" ""
    ∷ rule "i" (pos 0) "j" ""
    ∷ rule "i" (pos 0) "v" ""
    ∷ rule "i" (pos 0) "45" ""
    ∷ rule "i" (pos 0) "67" ""
    ∷ rule "i" (pos 0) "i" ""
    ∷ rule "s" (pos 0) "o" "0"
    ∷ rule "i" (pos 0) "001" ""
    ∷ rule "i" (negsuc 0) "A" ""
    ∷ rule "i" (negsuc 0) "t" ""
    ∷ rule "i" (pos 0) "101" ""
    ∷ rule "i" (pos 0) "l" ""
    ∷ rule "i" (negsuc 0) "01" ""
    ∷ rule "i" (pos 0) "92" ""
    ∷ rule "i" (negsuc 0) "r" ""
    ∷ rule "i" (pos 0) "g" ""
    ∷ []

abbrev pub das_rules_5 : List RDasRule
das_rules_5 =
    rule "i" (pos 0) "02" ""
    ∷ rule "i" (negsuc 0) "n" ""
    ∷ rule "i" (pos 0) "91" ""
    ∷ rule "i" (pos 0) "o" ""
    ∷ rule "i" (negsuc 0) "3" ""
    ∷ rule "i" (pos 0) "h" ""
    ∷ rule "i" (pos 0) "321" ""
    ∷ rule "i" (pos 0) "95" ""
    ∷ rule "i" (negsuc 0) "123" ""
    ∷ rule "i" (pos 0) "33" ""
    ∷ rule "i" (pos 0) "x" ""
    ∷ rule "i" (pos 0) "85" ""
    ∷ rule "i" (pos 0) "17" ""
    ∷ rule "i" (pos 0) "06" ""
    ∷ rule "i" (pos 0) "66" ""
    ∷ rule "i" (negsuc 0) "j" ""
    ∷ rule "i" (pos 0) "19" ""
    ∷ rule "i" (pos 0) "05" ""
    ∷ rule "i" (pos 0) "03" ""
    ∷ rule "i" (pos 0) "666" ""
    ∷ rule "i" (pos 0) "24" ""
    ∷ rule "i" (pos 0) "69" ""
    ∷ rule "i" (pos 0) "u" ""
    ∷ rule "i" (pos 0) "16" ""
    ∷ rule "i" (pos 0) "80" ""
    ∷ []
