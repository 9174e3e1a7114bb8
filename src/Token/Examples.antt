-- ===== src/Token/Examples.antt =====
-- Tests of the token parser, and the theorems at concrete lines.
use esp32_ad_blocker_reborn.Common.{◌≡◌, refl, some, none, codes}
use esp32_ad_blocker_reborn.Token.{domain_extract_token, tok_char_ok, tok_is_address}
use esp32_ad_blocker_reborn.Token.Formats.{AllOk, domain_extract_token-formats}

star : domain_extract_token (codes "*.ads.com # x") ≡ some (codes "ads.com")
unfolding domain_extract_token tok_is_address tok_char_ok
star = refl

path : domain_extract_token (codes "ads.com/x") ≡ none
unfolding domain_extract_token
path = refl

name_ok : AllOk (codes "a.b")
unfolding tok_char_ok
name_ok = (refl, (refl, (refl, tt)))

address_ok : AllOk (codes "0.0")
unfolding tok_char_ok
address_ok = (refl, (refl, (refl, tt)))

domain_extract_token-formats_example :
    (domain_extract_token (codes "a.b") ≡ some (codes "a.b"))
    × (domain_extract_token (codes "0.0 a.b") ≡ some (codes "a.b"))
    × (domain_extract_token (codes "||a.b^") ≡ some (codes "a.b"))
unfolding tok_is_address
domain_extract_token-formats_example =
    domain_extract_token-formats b'a' (codes ".b") b'0' (codes ".0") name_ok refl address_ok refl
