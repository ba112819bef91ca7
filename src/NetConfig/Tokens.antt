-- ===== src/NetConfig/Tokens.antt =====
-- Section and key names.
use rapi_bootloader.Base.{◌≡◌, ◌↔◌, true, [], ◌∷◌, map, arith, Bytes}
use rapi_bootloader.TextScan.{trim_start, trim_end}
use rapi_bootloader.NetConfig.{lower, match_loop, match_token}

match_loop_iff : (a b : Bytes) → (match_loop a b ≡ true) ↔ (map lower a ≡ map lower b)
unfolding match_loop
match_loop_iff [] [] = ground arith
match_loop_iff [] (b ∷ bs) = ground arith
match_loop_iff (a ∷ as') [] = ground arith
match_loop_iff (a ∷ as') (b ∷ bs) = ground (arith, match_loop_iff as' bs)

-- MatchToken compares the text without its surrounding white space with the name, byte for byte up
-- to the case of the letters A to Z.
pub match_token_iff :
    (s name : Bytes)
    → (match_token s name ≡ true) ↔ (map lower (trim_end (trim_start s)) ≡ map lower name)
unfolding match_token
match_token_iff s name = match_loop_iff (trim_end (trim_start s)) name
