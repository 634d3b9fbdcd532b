-- ===== src/Pairing/Runs.antt =====
-- Tests and witnesses of the pairing exchanges.
use hap_rust.Common.{◌≡◌, refl, List, [], ◌∷◌, ok, true, false, replicate, All, is_utf8}
use hap_rust.Tlv8.RoundTrip.{push_all}
use hap_rust.Pairing.Admin.{PairingInfo, parse_list_reply}
use hap_rust.Pairing.Admin.Replies.{reply_items, IsReported, parse_list_reply-push_all}
use hap_rust.Pairing.Admin.Accepted.{parse_list_reply-IsReported}

abbrev two_pairings : List PairingInfo
two_pairings =
    record { id = 65 ∷ 0xC3 ∷ 0xA9 ∷ []; ltpk = replicate 32 1; admin = true }
    ∷ record { id = 66 ∷ []; ltpk = replicate 32 2; admin = false }
    ∷ []

two_pairings-IsReported : All IsReported two_pairings
unfolding is_utf8
two_pairings-IsReported = ((refl, refl), ((refl, refl), tt))

parse_list_reply-push_all_example :
    parse_list_reply (push_all [] (reply_items two_pairings)) ≡ ok two_pairings
parse_list_reply-push_all_example = parse_list_reply-push_all two_pairings two_pairings-IsReported

parse_list_reply-IsReported_example : All IsReported two_pairings
parse_list_reply-IsReported_example =
    parse_list_reply-IsReported (push_all [] (reply_items two_pairings)) two_pairings
      (parse_list_reply-push_all two_pairings two_pairings-IsReported)
