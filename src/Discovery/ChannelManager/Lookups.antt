-- ===== src/Discovery/ChannelManager/Lookups.antt =====
-- The lookups of discovery/specific_manager/channel_manager.cpp that change nothing: who is there, the
-- message type of a channel and the names of the channels. A name's registered id is an argument, the key.
use cmw.Prelude.{
  Bool-cases, sym, ◌∙◌, ◌≢◌, ◌⊎◌, In-left, In-right, In-split, ℕ, ◌≡◌, refl, ap, Bool, true, false,
  not, List, [], ◌∷◌, ◌++◌, Option, none, some, if◌then◌else◌, arith, inl, inr, In, ◌↔◌,
}
use cmw.Prelude.Assoc.{Text, text_beq, text_beq_iff}
use cmw.Discovery.Role.{Role, RoleAttributes}
use cmw.Discovery.Warehouse.{
  RoleMap, is_some, find_if, filter_if, found_all, has_key, get_all_roles, multi_search_key,
  multi_search_key_all,
}
use cmw.Discovery.Change.{ChangeMsg}
use cmw.Discovery.Graph.{is_dummy}
use cmw.Discovery.ChannelManager.{
  ChannelManager, attributes_of, get_writers_of_channel, get_readers_of_channel,
}
use cmw.Discovery.ChannelManager.Neighbours.{emplace_names}
use cmw.Discovery.ChannelManager.Neighbours.Channels.{Named, emplace_there, emplace_back}

-- `IsMessageTypeMatching`
unfoldable is_message_type_matching : Text → Text → Bool
is_message_type_matching lhs rhs = if text_beq lhs rhs then true else false

-- The roles that a loop of `ScanMessageType` prints a line about; its second loop has the two types in the
-- other order.
unfoldable mismatched : Text → List RoleAttributes → List RoleAttributes
unfolding is_message_type_matching
mismatched msg_type [] = []
mismatched msg_type (a ∷ rs) =
    if not (is_message_type_matching a.message_type msg_type)
    then a ∷ mismatched msg_type rs
    else mismatched msg_type rs

-- `ScanMessageType`, as the roles that it prints a line about: writers, then readers
unfoldable scan_message_type : ChangeMsg → ChannelManager → List RoleAttributes
unfolding mismatched
scan_message_type msg m =
    let key = msg.role_attr.channel_id in
    let typed = msg.role_attr.message_type in
    mismatched typed (get_writers_of_channel m key [])
    ++ mismatched typed (get_readers_of_channel m key [])

unfoldable has_writer : ChannelManager → ℕ → Bool
unfolding multi_search_key
has_writer m key = is_some (multi_search_key attributes_of m.channel_writers key)

unfoldable has_reader : ChannelManager → ℕ → Bool
unfolding multi_search_key
has_reader m key = is_some (multi_search_key attributes_of m.channel_readers key)

unfoldable get_writers : ChannelManager → List RoleAttributes → List RoleAttributes
unfolding get_all_roles
get_writers m writers = get_all_roles attributes_of m.channel_writers writers

unfoldable get_readers : ChannelManager → List RoleAttributes → List RoleAttributes
unfolding get_all_roles
get_readers m readers = get_all_roles attributes_of m.channel_readers readers

-- The type that the caller's string holds after `GetMsgType`, for the writer found
unfoldable typed_by : Option RoleAttributes → Text → Text
typed_by none msg_type = msg_type
typed_by (some a) msg_type = if not (is_dummy a.message_type) then a.message_type else msg_type

unfoldable get_msg_type : ChannelManager → ℕ → Text → Text
unfolding typed_by multi_search_key
get_msg_type m key msg_type =
    typed_by (multi_search_key attributes_of m.channel_writers key) msg_type

-- The set of names is walked in the order in which they came.
unfoldable get_channel_names : ChannelManager → List Text → List Text
unfolding get_writers get_readers emplace_names
get_channel_names m channels = channels ++ emplace_names (get_readers m (get_writers m [])) []

-- The first of a list
abbrev first_of : {A : Type 0} → List A → Option A
first_of [] = none
first_of (a ∷ rest) = some a

first_match : (test : ℕ × Role → Bool) (m : RoleMap) → find_if test m ≡ first_of (filter_if test m)
unfolding find_if filter_if
first_match test [] = refl
first_match test (e ∷ m) = ground (arith, first_match test m)

output_first :
    (rs : List Role)
    → (elim (first_of rs) as (λ x. Option RoleAttributes) [
      | none ↦ none
      | some r ↦ some (attributes_of r)
    ])
      ≡ first_of (found_all attributes_of [] rs).1
output_first [] = refl
output_first (r ∷ rs) = refl

first_found :
    (k : ℕ) (m : RoleMap)
    → multi_search_key attributes_of m k ≡ first_of (multi_search_key_all attributes_of m k []).1
unfolding multi_search_key multi_search_key_all
first_found k m =
    rw (multi_search_key, first_match (has_key k) m) (output_first (filter_if (has_key k) m))

-- `HasWriter` and `HasReader` of a channel answer whether the vector of its writers or of its readers has
-- anything, and `GetMsgType` gives the message type of the first of those writers, or leaves the caller's
-- string where there is none or its type is empty.
lookups_lem :
    (m : ChannelManager) (k : ℕ) (msg_type : Text)
    → (has_writer m k ≡ is_some (first_of (get_writers_of_channel m k [])))
      × (has_reader m k ≡ is_some (first_of (get_readers_of_channel m k [])))
      × (get_msg_type m k msg_type ≡ typed_by (first_of (get_writers_of_channel m k [])) msg_type)
unfolding has_writer has_reader get_msg_type get_writers_of_channel get_readers_of_channel
lookups_lem m k msg_type = (
  ap is_some (first_found k m.channel_writers),
  ap is_some (first_found k m.channel_readers),
  ap (λ o. typed_by o msg_type) (first_found k m.channel_writers),
)

-- `GetChannelNames` into an empty vector gives the names of the channels that some writer or some reader
-- has, and no other.
channel_names_lem :
    (m : ChannelManager) (c : Text)
    → In c (get_channel_names m []) ↔ Named c (get_readers m (get_writers m []))
unfolding get_channel_names
channel_names_lem m c = (
  λ h. elim (emplace_there c (get_readers m (get_writers m [])) [] h) [
    | inl nothing ↦ absurd nothing
    | inr named ↦ named
  ],
  λ named. emplace_back c (get_readers m (get_writers m [])) [] (inr named),
)

mismatched_lem :
    (t : Text) (rs : List RoleAttributes) (a : RoleAttributes)
    → In a (mismatched t rs) ↔ (In a rs × (a.message_type ≢ t))
unfolding mismatched is_message_type_matching
mismatched_lem t [] a = (λ h. absurd h, λ h. h.0)
mismatched_lem t (b ∷ rs) a = elim (Bool-cases (text_beq b.message_type t)) [
  | inl same ↦
      let e = (text_beq_iff b.message_type t).0 same in
      rw same (
        λ h. let (there, ne) = (mismatched_lem t rs a).0 h in (inr there, ne),
        λ h. elim h.0 [
          | inl here ↦ absurd (h.1 (ap (λ r. r.message_type) here ∙ e))
          | inr later ↦ (mismatched_lem t rs a).1 (later, h.1)
        ],
      )
  | inr other ↦
      let ne : b.message_type ≢ t = λ e. let yes' = (text_beq_iff b.message_type t).1 e in cc in
      rw other (
        λ h. elim h [
          | inl here ↦ (inl here, λ e. ne (sym (ap (λ r. r.message_type) here) ∙ e))
          | inr later ↦ let (there, apart) = (mismatched_lem t rs a).0 later in (inr there, apart)
        ],
        λ h. elim h.0 [
          | inl here ↦ inl here
          | inr later ↦ inr ((mismatched_lem t rs a).1 (later, h.1))
        ],
      )
]

-- `ScanMessageType` prints a line about exactly the writers and the readers of the message's channel that
-- have another message type.
scan_message_type_lem :
    (msg : ChangeMsg) (m : ChannelManager) (a : RoleAttributes)
    → In a (scan_message_type msg m) ↔ (
        (In a (get_writers_of_channel m msg.role_attr.channel_id [])
          ⊎ In a (get_readers_of_channel m msg.role_attr.channel_id []))
        × (a.message_type ≢ msg.role_attr.message_type))
unfolding scan_message_type
scan_message_type_lem msg m a =
    let t = msg.role_attr.message_type in
    let writers = get_writers_of_channel m msg.role_attr.channel_id [] in
    let readers = get_readers_of_channel m msg.role_attr.channel_id [] in
    (
      λ h. elim (In-split a (mismatched t writers) (mismatched t readers) h) [
        | inl l ↦ let (there, ne) = (mismatched_lem t writers a).0 l in (inl there, ne)
        | inr r ↦ let (there, ne) = (mismatched_lem t readers a).0 r in (inr there, ne)
      ],
      λ h. elim h.0 [
        | inl l ↦
            In-left a (mismatched t writers) (mismatched t readers)
              ((mismatched_lem t writers a).1 (l, h.1))
        | inr r ↦
            In-right a (mismatched t writers) (mismatched t readers)
              ((mismatched_lem t readers a).1 (r, h.1))
      ],
    )
