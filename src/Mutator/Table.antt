-- ===== src/Mutator/Table.antt =====
-- The whole rule table of pkg/mutator/dasrules.go, in its order.
mod First
mod Middle
mod Last
use migp.Base.{List, ◌++◌}
use migp.Mutator.Rule.{RDasRule}
use First.{das_rules_1, das_rules_2, das_rules_3, das_rules_4, das_rules_5}
use Middle.{das_rules_6, das_rules_7, das_rules_8, das_rules_9}
use Last.{das_rules_10, das_rules_11, das_rules_12, das_rules_13}

-- What `json.Unmarshal` makes of the text `dasRulesJSONString`.
unfoldable pub das_rules : List RDasRule
das_rules =
    das_rules_1
    ++ (das_rules_2
        ++ (das_rules_3
            ++ (das_rules_4
                ++ (das_rules_5
                    ++ (das_rules_6
                        ++ (das_rules_7
                            ++ (das_rules_8
                                ++ (das_rules_9
                                    ++ (das_rules_10
                                        ++ (das_rules_11 ++ (das_rules_12 ++ das_rules_13)))))))))))
