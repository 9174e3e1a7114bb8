-- ===== src/WebParse/Examples.antt =====
-- The parsers on requests.
use esp32_ad_blocker_reborn.Common.{
  ℕ, ◌≡◌, refl, arith, true, false, some, List, [], ◌∷◌, codes, done, Returns,
}
use esp32_ad_blocker_reborn.WebParse.{
  web_html_escape, web_url_decode, web_form_field, web_origin_host_matches, web_cookie_sid,
}
use esp32_ad_blocker_reborn.WebParse.Coding.{IsBytes, percent_encode, web_url_decode-percent_encode}
use esp32_ad_blocker_reborn.WebParse.Origin.{OriginOf, web_origin_host_matches-OriginOf}
use esp32_ad_blocker_reborn.WebParse.Cookie.{OptionSidOf, web_cookie_sid-SidOf}

abbrev some_bytes : List ℕ
some_bytes = 38 ∷ 255 ∷ 65 ∷ []

web_url_decode-percent_encode_example : web_url_decode 4 (percent_encode some_bytes) ≡ some_bytes
web_url_decode-percent_encode_example =
    web_url_decode-percent_encode 4 some_bytes
      (IsBytes.cons (omega arith)
        (IsBytes.cons (omega arith) (IsBytes.cons (omega arith) IsBytes.nil)))
      (omega arith)

origin_test : web_origin_host_matches (codes "https://Box.lan:443/x") (codes "box.lan") ≡ true
unfolding web_origin_host_matches
origin_test = refl

web_origin_host_matches-OriginOf_example :
    OriginOf (codes "https://Box.lan:443/x") (codes "box.lan")
web_origin_host_matches-OriginOf_example =
    web_origin_host_matches-OriginOf (codes "https://Box.lan:443/x") (codes "box.lan") origin_test

other_origin_test :
    web_origin_host_matches (codes "http://box.lan.evil.com") (codes "box.lan") ≡ false
unfolding web_origin_host_matches
other_origin_test = refl

web_cookie_sid-SidOf_example :
    Returns (web_cookie_sid (codes "xsid=1; sid=ab12") 4) (OptionSidOf (codes "xsid=1; sid=ab12") 4)
web_cookie_sid-SidOf_example = web_cookie_sid-SidOf (codes "xsid=1; sid=ab12") 4

cookie_test : web_cookie_sid (codes "xsid=1; sid=ab12") 4 ≡ done (some (codes "ab12"))
unfolding web_cookie_sid
cookie_test = refl

form_test : web_form_field (codes "ab=1&b=x%41+%&c=") (codes "b") 8 ≡ done (true, codes "xA %")
unfolding web_form_field web_url_decode
form_test = refl

escape_test : web_html_escape 8 (codes "a<bcd") ≡ codes "a&lt;bc"
unfolding web_html_escape
escape_test = refl

-- A sign in front of a digit is taken as part of a number.
sign_test : web_url_decode 8 (codes "%-1") ≡ 255 ∷ []
unfolding web_url_decode
sign_test = refl
