-- ===== src/Http/Reply/Status.antt =====
-- src/whz_common.cpp: each status line and each stock page against the number of its status.
use work_horz.Base.{Bool, true, false, not, ◌++◌, ◌≡◌, refl, codes, starts_with, contains, contains}
use work_horz.Base.Decimal.{to_decimal}
use work_horz.Http.Reply.{
  StatusType, ok, created, accepted, no_content, multiple_choices, moved_permanently,
  moved_temporarily, not_modified, bad_request, unauthorized, forbidden, not_found,
  internal_server_error, not_implemented, bad_gateway, service_unavailable, unlisted, status_code,
  to_buffer, reply_to_string,
}

abbrev IsListed : StatusType → Type 0
IsListed (unlisted n) = ⊥
IsListed _ = Unit

-- The status line of every enumerator begins with the version and the enumerator's own number.
pub to_buffer-status_code :
    (s : StatusType)
    → IsListed s
    → starts_with (to_buffer s) (codes "HTTP/1.0 " ++ (to_decimal (status_code s) ++ codes " "))
      ≡ true
unfolding to_buffer status_code to_decimal starts_with
to_buffer-status_code ok h = refl
to_buffer-status_code created h = refl
to_buffer-status_code accepted h = refl
to_buffer-status_code no_content h = refl
to_buffer-status_code multiple_choices h = refl
to_buffer-status_code moved_permanently h = refl
to_buffer-status_code moved_temporarily h = refl
to_buffer-status_code not_modified h = refl
to_buffer-status_code bad_request h = refl
to_buffer-status_code unauthorized h = refl
to_buffer-status_code forbidden h = refl
to_buffer-status_code not_found h = refl
to_buffer-status_code internal_server_error h = refl
to_buffer-status_code not_implemented h = refl
to_buffer-status_code bad_gateway h = refl
to_buffer-status_code service_unavailable h = refl
to_buffer-status_code (unlisted n) h = absurd h

-- The statuses whose stock page shows another number, or none.
abbrev shows_other_code : StatusType → Bool
shows_other_code ok = true
shows_other_code not_found = true
shows_other_code _ = false

-- The stock page of every enumerator has a heading that begins with the enumerator's own number,
-- but for `ok` and `not_found`, whose pages have no such heading.
pub reply_to_string-status_code :
    (s : StatusType)
    → IsListed s
    → contains (reply_to_string s) (codes "<h1>" ++ (to_decimal (status_code s) ++ codes " "))
      ≡ not (shows_other_code s)
unfolding reply_to_string status_code to_decimal contains starts_with
reply_to_string-status_code ok h = refl
reply_to_string-status_code created h = refl
reply_to_string-status_code accepted h = refl
reply_to_string-status_code no_content h = refl
reply_to_string-status_code multiple_choices h = refl
reply_to_string-status_code moved_permanently h = refl
reply_to_string-status_code moved_temporarily h = refl
reply_to_string-status_code not_modified h = refl
reply_to_string-status_code bad_request h = refl
reply_to_string-status_code unauthorized h = refl
reply_to_string-status_code forbidden h = refl
reply_to_string-status_code not_found h = refl
reply_to_string-status_code internal_server_error h = refl
reply_to_string-status_code not_implemented h = refl
reply_to_string-status_code bad_gateway h = refl
reply_to_string-status_code service_unavailable h = refl
reply_to_string-status_code (unlisted n) h = absurd h
