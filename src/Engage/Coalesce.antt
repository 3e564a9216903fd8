-- ===== src/Engage/Coalesce.antt =====
-- `coalesce_candidates`: a burst of messages of one sender becomes one candidate.
pub mod Bursts
pub mod Tests
use telegram_presence.Base.{
  ℕ, zero, suc, ◌+◌, ◌-◌, ◌*◌, ◌/◌, ◌%◌, ◌^◌, ◌≤◌, ◌<◌, min, max, ◌≡◌, refl, sym, ap, ◌∙◌, subst,
  ◌≢◌, ◌↔◌, ◌⊎◌, inl, inr, Bool, true, false, not, ◌&&◌, ◌||◌, Option, none, some, List, [], ◌∷◌,
  ◌++◌, map, arith, ltb, leb, ◌==◌, if◌then◌else◌, ltb→lt, lt→ltb, leb→le, ==_iff, Bool-cases,
  Option-cases, is_none, is_some, length, length-append, take, drop, length-take, length-drop,
  take-all, keep, length-keep-le, All, All-append, All-map,
}
use telegram_presence.Base.Int.{ℤ, int_eq}
use telegram_presence.Base.Text.{Text, codes, text_eq, lower, is_empty}
use telegram_presence.Base.Sort.{sort}
use telegram_presence.Engage.Boundaries.{Candidate}

-- `_KIND_RANK.get(kind, 0)`
unfoldable pub kind_rank : Text → ℕ
kind_rank kind =
    if text_eq kind (codes "reply")
    then 3
    else if text_eq kind (codes "mention")
    then 2
    else if text_eq kind (codes "name_only")
    then 1
    else 0

abbrev pub self_handles : List Text
self_handles =
    codes "@rain" ∷ codes "@rain_ouroboros" ∷ codes "@ouroboros" ∷ codes "@rainouroboros" ∷ []

unfoldable pub text_in : Text → List Text → Bool
text_in t [] = false
text_in t (u ∷ us) = text_eq u t || text_in t us

unfoldable pub all_self : List Text → Bool
all_self [] = true
all_self (h ∷ hs) = text_in h self_handles && all_self hs

unfoldable pub texts_eq : List Text → List Text → Bool
texts_eq [] [] = true
texts_eq (a ∷ rest) (b ∷ more) = text_eq a b && texts_eq rest more
texts_eq _ _ = false

-- Whom a message is aimed at, by the tuples of `_target_signature`
pub data Target : Type 0 where
  nobody myself other_mention : Target
  handles : List Text → Target
  reply_to : ℕ → Target

unfoldable pub target_eq : Target → Target → Bool
unfolding texts_eq
target_eq nobody nobody = true
target_eq myself myself = true
target_eq other_mention other_mention = true
target_eq (handles a) (handles b) = texts_eq a b
target_eq (reply_to m) (reply_to n) = m == n
target_eq _ _ = false

unfoldable pub unnamed_target : Candidate → Target
unnamed_target c = elim c.reply_to_message_id [
  | some id ↦ reply_to id
  | none ↦
      if text_eq c.addressed_kind (codes "mention") || text_eq c.addressed_kind (codes "reply")
      then myself
      else if c.mentions_other
      then other_mention
      else nobody
]

-- `_target_signature`
unfoldable pub target_signature : Candidate → Target
unfolding all_self unnamed_target
target_signature c =
    let named = map lower c.mentioned_handles in
    if c.reply_to_me
    then myself
    else if length named == 0
    then unnamed_target c
    else if all_self named
    then myself
    else handles named

unfoldable pub same_floor : Target → Target → Bool
unfolding target_eq
same_floor nobody b = true
same_floor a b = target_eq b nobody || target_eq a b

unfoldable pub id_eq : Option ℤ → Option ℤ → Bool
unfolding int_eq
id_eq none none = true
id_eq (some m) (some n) = int_eq m n
id_eq _ _ = false

-- Whether a candidate goes on with the burst whose last message is `prior`, by the limits but the length
unfoldable pub continues : ℕ → Candidate → Candidate → Bool
unfolding id_eq same_floor target_signature
continues max_gap prior c =
    id_eq prior.sender_id c.sender_id
    && id_eq prior.topic_id c.topic_id
    && same_floor (target_signature prior) (target_signature c)
    && leb (c.ts - prior.ts) max_gap

unfoldable pub newest : Candidate → List Candidate → Candidate
newest c [] = c
newest c (d ∷ ds) = newest d ds

-- `max(group, key=…)`: the first of the greatest
unfoldable pub strongest : Candidate → List Candidate → Candidate
unfolding kind_rank
strongest c [] = c
strongest c (d ∷ ds) =
    strongest (if ltb (kind_rank c.addressed_kind) (kind_rank d.addressed_kind) then d else c) ds

unfoldable pub any_of : (Candidate → Bool) → List Candidate → Bool
any_of p [] = false
any_of p (c ∷ cs) = p c || any_of p cs

unfoldable pub joined : List Text → Text
joined [] = []
joined (t ∷ []) = t
joined (t ∷ u ∷ ts) = t ++ codes " ⏎ " ++ joined (u ∷ ts)

unfoldable pub long_text : Candidate → Text
long_text c = if is_empty c.full_text then c.snippet else c.full_text

unfoldable pub first_username : List Candidate → Option Text
first_username [] = none
first_username (c ∷ cs) =
    let rest = first_username cs in
    elim c.reply_to_username [ none ↦ rest | some t ↦ if is_empty t then rest else some t ]

unfoldable pub greatest_seq : List Candidate → Option ℕ
greatest_seq [] = none
greatest_seq (c ∷ cs) =
    let rest = greatest_seq cs in
    elim c.spool_seq [
      | none ↦ rest
      | some n ↦ elim rest [ none ↦ some n | some m ↦ some (max n m) ]
    ]

unfoldable pub sum_chars : List Candidate → ℕ
sum_chars [] = 0
sum_chars (c ∷ cs) = max c.original_chars (length c.snippet) + sum_chars cs

-- `dict.fromkeys` of the handles behind those that were met
unfoldable pub add_new : List Text → List Text → List Text
add_new met [] = met
add_new met (h ∷ hs) = add_new (if text_in h met then met else met ++ h ∷ []) hs

unfoldable pub all_handles : List Text → List Candidate → List Text
all_handles met [] = met
all_handles met (c ∷ cs) = all_handles (add_new met c.mentioned_handles) cs

-- The candidate that a group of two or more becomes.
unfoldable pub merged : Candidate → List Candidate → Candidate
unfolding newest strongest any_of joined long_text first_username greatest_seq sum_chars all_handles
merged c cs =
    let group = c ∷ cs in
    let last = newest c cs in
    let strong = strongest c cs in
    let anchor = if ltb 0 (kind_rank strong.addressed_kind) then strong else last in
    let shown : Text → Bool = λ t. not (is_empty t) in
    record {
      message_id = anchor.message_id;
      addressed = any_of (λ x. x.addressed) group;
      snippet = joined (keep shown (map (λ x. x.snippet) group));
      sender_id = last.sender_id;
      from_me = false;
      sender_username = last.sender_username;
      chat = last.chat;
      sender_name = last.sender_name;
      addressed_kind = strong.addressed_kind;
      mentions_other = any_of (λ x. x.mentions_other) group;
      reply_to_username = first_username group;
      reply_to_me = any_of (λ x. x.reply_to_me) group;
      ts = last.ts;
      full_text = take 4096 (joined (keep shown (map long_text group)));
      truncated = any_of (λ x. x.truncated) group;
      original_chars = sum_chars group;
      topic_id = last.topic_id;
      spool_seq = greatest_seq group;
      reply_to_message_id = anchor.reply_to_message_id;
      mentioned_handles = all_handles [] group;
    }

-- What `_flush_group` appends.
unfoldable pub flushed : List Candidate → List Candidate
unfolding merged
flushed [] = []
flushed (c ∷ []) = c ∷ []
flushed (c ∷ d ∷ ds) = merged c (d ∷ ds) ∷ []

-- `out` and `group`
abbrev pub Progress : Type 0
Progress = List Candidate × List Candidate

unfoldable pub goes_on : ℕ → ℕ → List Candidate → Candidate → Bool
unfolding continues newest
goes_on max_gap max_join [] c = false
goes_on max_gap max_join (g ∷ gs) c =
    continues max_gap (newest g gs) c && ltb (length (g ∷ gs)) max_join

-- One round of the loop.
unfoldable pub each : ℕ → ℕ → Progress → Candidate → Progress
unfolding flushed goes_on
each max_gap max_join s c =
    if c.from_me || is_none c.sender_id
    then (s.0 ++ flushed s.1 ++ c ∷ [], [])
    else if goes_on max_gap max_join s.1 c
    then (s.0, s.1 ++ c ∷ [])
    else (s.0 ++ flushed s.1, c ∷ [])

unfoldable pub loop : ℕ → ℕ → Progress → List Candidate → List Candidate
unfolding each
loop max_gap max_join s [] = s.0 ++ flushed s.1
loop max_gap max_join s (c ∷ cs) = loop max_gap max_join (each max_gap max_join s c) cs

unfoldable pub earlier : Candidate → Candidate → Bool
earlier a b = ltb a.ts b.ts || ((a.ts == b.ts) && leb a.message_id b.message_id)

-- `coalesce_candidates`
unfoldable pub coalesce_candidates : ℕ → ℕ → List Candidate → List Candidate
unfolding loop earlier
coalesce_candidates max_gap max_join candidates =
    loop max_gap max_join ([], []) (sort earlier candidates)
