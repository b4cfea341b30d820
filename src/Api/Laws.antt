-- ===== src/Api/Laws.antt =====
-- Who is let in.
use live_stream_danmaku.Base.{
  ℕ, ◌≡◌, ◌≢◌, ◌<◌, ◌↔◌, refl, ap, true, [], ◌∷◌, nat_eq, list_eq, list_beq,
}
use live_stream_danmaku.Text.{Text}
use live_stream_danmaku.Text.Decimal.{NumResult, parsed, syntax, range, parse_uint, u64}
use live_stream_danmaku.Text.Decimal.Laws.{AllDigits, value_from, parse_uint_iff}
use live_stream_danmaku.Ws.Client.{new_client}
use live_stream_danmaku.Api.{Response, accepted, connect_web_socket, check_uid, open_client}

uid_of : ℕ → Response → ℕ
uid_of d (accepted c) = c.user_id
uid_of d _ = d

checked :
    (r : NumResult) (n : ℕ) (name room : Text)
    → (check_uid true r name room ≡ accepted (new_client n name room)) ↔ (r ≡ parsed n)
unfolding check_uid open_client uid_of
checked (parsed k) n name room = ((λ e. unfold new_client in ap parsed (ap (uid_of k) e)), λ e. cc)
checked syntax n name room = ((λ e. cc), λ e. cc)
checked range n name room = ((λ e. cc), λ e. cc)

-- When the upgrade succeeds, a connection is accepted for user `n` exactly if the room is not empty
-- and the `uid` is a non-empty string of decimal digits with the value `n`, which fits a uint64.
pub connect_web_socket_iff :
    (uid name room : Text) (n : ℕ)
    → (connect_web_socket true uid name room ≡ accepted (new_client n name room))
      ↔ ((room ≢ []) × (uid ≢ []) × AllDigits uid × (value_from 0 uid ≡ n) × (n < u64))
unfolding connect_web_socket list_beq
connect_web_socket_iff [] name room n = ((λ e. cc), λ h. absurd (h.1 refl))
connect_web_socket_iff (c ∷ uid) name [] n = ((λ e. cc), λ h. absurd (h.0 refl))
connect_web_socket_iff (c ∷ uid) name (d ∷ room) n = (
  (λ e.
      let (some_digit, digits, value, fits) =
        (parse_uint_iff (c ∷ uid) n).0 ((checked (parse_uint (c ∷ uid)) n name (d ∷ room)).0 e) in
      ((λ q. cc), some_digit, digits, value, fits)),
  λ h.
      let (_, some_digit, digits, value, fits) = h in
      (checked (parse_uint (c ∷ uid)) n name (d ∷ room)).1
        ((parse_uint_iff (c ∷ uid) n).1 (some_digit, digits, value, fits)),
)
