-- ===== src/Rosters/Tests.antt =====
-- The channels of a small server.
use Prim.Native.Nat.{compare}
use Prim.Native.String.{count}
use letschat.Common.{
  ◌≡◌, refl, false, nat_eq, string_eq, String, none, some, List, [], ◌∷◌, Dict, ℕ, lookup,
}
use letschat.Domain.{Channel, ChannelKind}
use letschat.History.{LocaleCompare, find_id}
use letschat.Rosters.{rows_at, upsert_channel}
use letschat.Rosters.Layout.{channel_id_of, find_id-upsert_channel}

abbrev by_length : LocaleCompare
by_length a b = compare (count a) (count b)

abbrev channel : ℕ → String → Channel
channel id name = record {
  id = id;
  server_id = 1;
  name = name;
  kind = ChannelKind.text;
  position = 0;
  section = none;
  moderator_only = false;
}

abbrev channels : Dict ℕ (List Channel)
channels = (1, channel 4 "general" ∷ channel 5 "random" ∷ []) ∷ []

find_id-upsert_channel_example :
    find_id channel_id_of 5
      (rows_at 1 (upsert_channel (λ s. s) by_length (channel 5 "off-topic") channels))
    ≡ some (channel 5 "off-topic")
unfolding lookup
find_id-upsert_channel_example =
    find_id-upsert_channel (λ s. s) by_length 5 1 (channel 5 "off-topic") channels
      (refl, (refl, tt))
