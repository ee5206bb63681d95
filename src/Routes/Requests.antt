-- ===== src/Routes/Requests.antt =====
-- src/routes.rs: the record of a request that is logged.
use rust_invite_system.Common.{
  ℕ, ◌-◌, ◌/◌, not, Option, none, some, List, [], ◌∷◌, Text, codes, text_eq, trim, is_empty, leb,
  if◌then◌else◌,
}
use rust_invite_system.Routes.State.{Request}
use rust_invite_system.Routes.Manage.{split_on}

abbrev pub nonempty : Text → Text → Text
nonempty default t = if is_empty (trim t) then default else trim t

-- The first of the parts: `split` gives at least one.
abbrev first_part : List Text → Text
first_part [] = codes "-"
first_part (part ∷ parts) = nonempty (codes "-") part

abbrev header_or_dash : Option Text → Text
header_or_dash none = codes "-"
header_or_dash (some t) = nonempty (codes "-") t

unfoldable pub header_value : Request → Text → Text
unfolding trim
header_value rq name = header_or_dash (rq.header name)

unfoldable pub request_client_ip : Request → Text
unfolding header_value text_eq split_on
request_client_ip rq =
    let forwarded = first_part (split_on b',' (header_value rq (codes "x-forwarded-for"))) in
    let real = header_value rq (codes "x-real-ip") in
    if not (text_eq forwarded (codes "-"))
    then forwarded
    else if not (text_eq real (codes "-"))
    then real
    else codes "unknown"

pub record RequestLog : Type 0 where
  pub method : Text
  pub path : Text
  pub client_ip : Text
  pub forwarded_for : Text
  pub user_agent : Text
  pub referer : Text
  pub message_field : Text
  pub started_at : ℕ

-- `RequestLog::new`, without its first line of the log. The method, the path and the time are read
-- from outside.
unfoldable pub new_log : Text → Text → ℕ → Request → Text → RequestLog
unfolding request_client_ip header_value
new_log method path now rq message_field = record {
  method = method;
  path = path;
  client_ip = request_client_ip rq;
  forwarded_for = header_value rq (codes "x-forwarded-for");
  user_agent = header_value rq (codes "user-agent");
  referer = header_value rq (codes "referer");
  message_field = message_field;
  started_at = now;
}

pub data Value : Type 0 where
  text : Text → Value
  number : ℕ → Value

-- `Map::insert`: a key that is there gets the new value.
unfoldable pub insert_field : Text → Value → List (Text × Value) → List (Text × Value)
unfolding text_eq
insert_field key value [] = (key, value) ∷ []
insert_field key value ((k, v) ∷ fields) =
    let rest = insert_field key value fields in
    if text_eq k key then (key, value) ∷ fields else (k, v) ∷ rest

-- `u64::MAX`
abbrev pub u64_max : ℕ
u64_max = 18_446_744_073_709_551_615

abbrev with_duration : Option ℕ → List (Text × Value) → List (Text × Value)
unfolding insert_field
with_duration none fields = fields
with_duration (some ms) fields =
    insert_field (codes "duration_ms") (number (if leb ms u64_max then ms else u64_max)) fields

-- The fields of a line of the log, by key and in no particular order; `ts` is the time as text.
unfoldable pub emit_json : RequestLog → Text → Text → Text → Option ℕ → List (Text × Value)
unfolding with_duration insert_field
emit_json log ts level message duration_ms = with_duration duration_ms (
    insert_field (codes "referer") (text log.referer) (
      insert_field (codes "user_agent") (text log.user_agent) (
        insert_field (codes "forwarded_for") (text log.forwarded_for) (
          insert_field (codes "client_ip") (text log.client_ip) (
            insert_field (codes "path") (text log.path) (
              insert_field (codes "method") (text log.method) (
                insert_field log.message_field (text message) (
                  insert_field (codes "level") (text level)
                    (insert_field (codes "ts") (text ts) [])))))))))

-- The line of `RequestLog::new`.
unfoldable pub start_line : RequestLog → Text → List (Text × Value)
unfolding emit_json
start_line log ts = emit_json log ts (codes "info") (codes "request start") none

-- The line of `drop`, at the given time in nanoseconds.
unfoldable pub complete_line : RequestLog → Text → ℕ → List (Text × Value)
unfolding emit_json
complete_line log ts now =
    emit_json log ts (codes "info") (codes "request complete")
      (some ((now - log.started_at) / 1_000_000))
