-- ===== src/Notifications.antt =====
-- src/lib/notifications.ts: which events become notifications of the system. A text is here the list
-- of its UTF-16 units, which `length` and `slice` count. The clock, the focus of the window and the
-- result of the native command are arguments.
pub mod QuietHours
pub mod Cases
pub mod Limits
pub mod Decision
mod Tests
use letschat.Common.{
  ℕ, String, ◌+◌, ◌-◌, ◌*◌, ◌≡◌, Bool, true, false, not, ◌&&◌, ◌||◌, Option, none, some, List, [],
  ◌∷◌, ◌++◌, Dict, lookup, insert, or_else, filter, length, if◌then◌else◌, ◌==◌, Equal, ltb, leb,
  nat_eq, is_space, units, zero, suc, units_equal,
}
use letschat.Ui.{PreferenceEvent, NotificationSettings, toggle_of}

abbrev pub Text : Type 0
Text = List ℕ

pub data Priority : Type 0 where
  normal silent : Priority

pub data EventType : Type 0 where
  channel_message mention direct_message friend_request friend_accepted : EventType
  incoming_call missed_call call_ended system : EventType

abbrev pub preference_key : EventType → Option PreferenceEvent
preference_key EventType.channel_message = some PreferenceEvent.channel_messages
preference_key EventType.mention = some PreferenceEvent.mentions
preference_key EventType.direct_message = some PreferenceEvent.direct_messages
preference_key EventType.friend_request = some PreferenceEvent.friend_requests
preference_key EventType.friend_accepted = some PreferenceEvent.friend_accepted
preference_key EventType.incoming_call = some PreferenceEvent.incoming_calls
preference_key EventType.missed_call = some PreferenceEvent.missed_calls
preference_key EventType.call_ended = some PreferenceEvent.missed_calls
preference_key EventType.system = none

abbrev pub matrix_priority : EventType → Priority
matrix_priority EventType.friend_accepted = silent
matrix_priority EventType.call_ended = silent
matrix_priority _ = normal

-- The payload of each event, behind the common part.
pub data Payload : Type 0 where
  channel_message : (sender_label content : Text) (channel_name : Option Text) → Payload
  mention : (sender_label content : Text) (channel_name : Option Text) → Payload
  direct_message : (sender_label content : Text) → Payload
  friend_request : (username : Text) → Payload
  friend_accepted : (username : Text) → Payload
  incoming_call : (caller_label : Text) → Payload
  missed_call : (caller_label : Text) (duration_label : Option Text) → Payload
  call_ended : (peer_label : Text) (duration_label : Option Text) → Payload
  system : (title body : Text) (priority : Option Priority) → Payload

pub record BasePayload : Type 0 where
  pub dedupe_key : Option Text
  pub suppress : Bool
  pub suppress_if_focused_and_active : Bool

abbrev pub event_type : Payload → EventType
event_type (Payload.channel_message sender content channel) = EventType.channel_message
event_type (Payload.mention sender content channel) = EventType.mention
event_type (Payload.direct_message sender content) = EventType.direct_message
event_type (Payload.friend_request username) = EventType.friend_request
event_type (Payload.friend_accepted username) = EventType.friend_accepted
event_type (Payload.incoming_call caller) = EventType.incoming_call
event_type (Payload.missed_call caller duration) = EventType.missed_call
event_type (Payload.call_ended peer duration) = EventType.call_ended
event_type (Payload.system title body priority) = EventType.system

abbrev pub dedupe_window_ms : ℕ
dedupe_window_ms = 2000

abbrev pub rate_limit_window_ms : ℕ
rate_limit_window_ms = 10000

abbrev pub rate_limit_max_events : ℕ
rate_limit_max_events = 6

abbrev pub preview_max_length : ℕ
preview_max_length = 90

-- `content.replace(/\s+/g, ' ')`; the flag says that the last unit was white space.
collapse : Bool → Text → Text
unfolding is_space
collapse inside [] = []
collapse inside (c ∷ cs) =
    let rest = collapse (is_space c) cs in
    if is_space c then (if inside then rest else 32 ∷ rest) else c ∷ rest

-- `trim`
trim_start : Text → Text
unfolding is_space
trim_start [] = []
trim_start (c ∷ cs) = let rest = trim_start cs in if is_space c then rest else c ∷ cs

put_trimmed : ℕ → Text → Text
unfolding is_space
put_trimmed c [] = if is_space c then [] else c ∷ []
put_trimmed c (d ∷ ds) = c ∷ d ∷ ds

trim_end : Text → Text
unfolding put_trimmed
trim_end [] = []
trim_end (c ∷ cs) = put_trimmed c (trim_end cs)

pub trim_text : Text → Text
unfolding trim_start trim_end
trim_text t = trim_end (trim_start t)

abbrev pub take : ℕ → Text → Text
take zero t = []
take (suc n) [] = []
take (suc n) (c ∷ cs) = c ∷ take n cs

unfoldable pub truncate_preview : Text → Text
unfolding collapse trim_text
truncate_preview content =
    let normalized = trim_text (collapse false content) in
    if leb (length normalized) preview_max_length
    then normalized
    else take (preview_max_length - 1) normalized ++ units "…"

-- `\d`
abbrev pub is_digit : ℕ → Bool
is_digit c = leb b'0' c && leb c b'9'

abbrev pub digit : ℕ → ℕ
digit c = c - b'0'

-- The bounds on hours and minutes.
abbrev pub in_day : ℕ → ℕ → Option ℕ
in_day hours minutes = if ltb 23 hours || ltb 59 minutes then none else some (hours * 60 + minutes)

-- `/^(\d{1,2}):(\d{2})$/` on the trimmed text, and the value of its groups.
match_time : Text → Option ℕ
match_time (h ∷ colon ∷ m ∷ n ∷ []) =
    if is_digit h && (colon == b':' && (is_digit m && is_digit n))
    then in_day (digit h) (digit m * 10 + digit n)
    else none
match_time (g ∷ h ∷ colon ∷ m ∷ n ∷ []) =
    if is_digit g && (is_digit h && (colon == b':' && (is_digit m && is_digit n)))
    then in_day (digit g * 10 + digit h) (digit m * 10 + digit n)
    else none
match_time _ = none

unfoldable pub time_to_minutes : Text → Option ℕ
unfolding match_time trim_text
time_to_minutes value = match_time (trim_text value)

-- The test on the minutes of the day.
abbrev pub in_window : ℕ → ℕ → ℕ → Bool
in_window start end now =
    if ltb start end then leb start now && ltb now end else leb start now || ltb now end

quiet_between : Option ℕ → Option ℕ → ℕ → Bool
quiet_between (some start) (some end) now = if start == end then false else in_window start end now
quiet_between _ _ now = false

unfoldable pub is_quiet_hours_active : NotificationSettings → ℕ → Bool
unfolding quiet_between
is_quiet_hours_active settings now_minutes =
    if settings.quiet_hours_enabled
    then quiet_between (time_to_minutes (units settings.quiet_hours_start))
        (time_to_minutes (units settings.quiet_hours_end)) now_minutes
    else false

-- The module's state: `recentByDedupeKey` and `emittedAtTimestamps`.
pub record Emitted : Type 0 where
  pub recent : Dict Text ℕ
  pub at : List ℕ

-- The `while` loop of `shouldRateLimit`. The clock does not fall below a time that it gave before, so
-- `now - t` is the difference of the source.
unfoldable pub shift_old : ℕ → List ℕ → List ℕ
shift_old now [] = []
shift_old now (t ∷ ts) =
    let rest = shift_old now ts in if ltb rate_limit_window_ms (now - t) then rest else t ∷ ts

unfoldable pub should_rate_limit : ℕ → List ℕ → Bool
unfolding shift_old
should_rate_limit now emitted = leb rate_limit_max_events (length (shift_old now emitted))

-- The loop of `seenRecently` that deletes old entries.
unfoldable pub drop_stale : ℕ → Dict Text ℕ → Dict Text ℕ
drop_stale now [] = []
drop_stale now ((k, t) ∷ m) =
    if ltb (dedupe_window_ms * 4) (now - t) then drop_stale now m else (k, t) ∷ drop_stale now m

-- `lastSeen !== undefined && now - lastSeen < DEDUPE_WINDOW_MS`
abbrev pub is_fresh : ℕ → Option ℕ → Bool
is_fresh now none = false
is_fresh now (some last_seen) = ltb (now - last_seen) dedupe_window_ms

unfoldable pub seen_recently : Text → ℕ → Dict Text ℕ → Dict Text ℕ × Bool
unfolding drop_stale
seen_recently key now recent =
    if is_fresh now (lookup ⦃e = units_equal⦄ key recent)
    then (recent, true)
    else (drop_stale now (insert ⦃e = units_equal⦄ key now recent), false)

pub record FormattedNotification : Type 0 where
  pub title : Text
  pub body : Text
  pub priority : Priority
  pub dedupe_key : Text

-- `(payload as SystemPayload).priority ?? NOTIFICATION_MATRIX[eventType].priority`
abbrev pub base_priority : Payload → Priority
base_priority (Payload.system title body (some priority)) = priority
base_priority p = matrix_priority (event_type p)

-- A duration is shown if it is there and not empty.
abbrev pub with_duration : Option Text → (Text → Text) → Text → Text
with_duration none f other = other
with_duration (some []) f other = other
with_duration (some (c ∷ cs)) f other = f (c ∷ cs)

-- The title, body and default key of each event.
format_parts : Bool → Payload → Text × Text × Text
format_parts previews (Payload.channel_message sender content channel) = (
  sender,
  if previews
      then truncate_preview content
      else units "New message in #" ++ or_else channel (units "channel"),
  units "channel_message:" ++ sender ++ units ":" ++ or_else channel [] ++ units ":" ++ content,
)
format_parts previews (Payload.mention sender content channel) = (
  sender ++ units " mentioned you",
  if previews
      then truncate_preview content
      else units "Mention in #" ++ or_else channel (units "channel"),
  units "mention:" ++ sender ++ units ":" ++ or_else channel [] ++ units ":" ++ content,
)
format_parts previews (Payload.direct_message sender content) = (
  sender,
  if previews then truncate_preview content else units "New direct message",
  units "direct_message:" ++ sender ++ units ":" ++ content,
)
format_parts previews (Payload.friend_request username) = (
  units "Friend Request",
  units "New friend request from " ++ username,
  units "friend_request:" ++ username,
)
format_parts previews (Payload.friend_accepted username) = (
  units "Friend Request Accepted",
  username ++ units " accepted your friend request",
  units "friend_accepted:" ++ username,
)
format_parts previews (Payload.incoming_call caller) =
    (units "Incoming call", caller ++ units " is calling you", units "incoming_call:" ++ caller)
format_parts previews (Payload.missed_call caller duration) = (
  units "Missed call",
  units "You missed a call from "
      ++ caller
      ++ with_duration duration (λ d. units " (" ++ d ++ units ")") [],
  units "missed_call:" ++ caller ++ units ":" ++ or_else duration [],
)
format_parts previews (Payload.call_ended peer duration) = (
  units "Call ended",
  with_duration duration (λ d. peer ++ units " call ended after " ++ d)
      (peer ++ units " call ended"),
  units "call_ended:" ++ peer ++ units ":" ++ or_else duration [],
)
format_parts previews (Payload.system title body priority) =
    (title, truncate_preview body, units "system:" ++ title ++ units ":" ++ body)

unfoldable pub format_notification :
    NotificationSettings → BasePayload → Payload → FormattedNotification
unfolding format_parts
format_notification settings base payload =
    let (title, body, key) = format_parts settings.show_previews payload in
    record {
      title = title;
      body = body;
      priority = base_priority payload;
      dedupe_key = or_else base.dedupe_key key;
    }

-- `preferenceKey && !settings.eventToggles[preferenceKey]`
abbrev pub switched_off : NotificationSettings → Option PreferenceEvent → Bool
switched_off settings none = false
switched_off settings (some event) = not (toggle_of event settings.event_toggles)

-- The clock at a call: the minutes of the day, and `Date.now()`; and the focus of the window.
pub record Moment : Type 0 where
  pub minutes : ℕ
  pub now : ℕ
  pub focused : Bool

unfoldable pub should_suppress_for_preferences :
    NotificationSettings → Moment → BasePayload → EventType → Bool
should_suppress_for_preferences settings moment base event =
    if not settings.enabled
    then true
    else if is_quiet_hours_active settings moment.minutes
    then true
    else if switched_off settings (preference_key event)
    then true
    else if base.suppress
    then true
    else if base.suppress_if_focused_and_active && moment.focused
    then true
    else false

-- `notify` up to the native command: the state left, and what is handed to the command, if anything.
-- The answer of the call is then that of the command.
unfoldable pub notify :
    NotificationSettings
    → Moment
    → BasePayload
    → Payload
    → Emitted
    → Emitted × Option FormattedNotification
notify settings moment base payload s =
    if should_suppress_for_preferences settings moment base (event_type payload)
    then (s, none)
    else let formatted = format_notification settings base payload in
      let (recent, seen) = seen_recently formatted.dedupe_key moment.now s.recent in
      if seen
      then (record s { recent = recent }, none)
      else let kept = shift_old moment.now s.at in
        if should_rate_limit moment.now s.at
        then (record { recent = recent; at = kept }, none)
        else (record { recent = recent; at = kept ++ moment.now ∷ [] }, some formatted)
