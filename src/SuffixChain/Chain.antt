-- ===== src/SuffixChain/Chain.antt =====
-- `SeqnumSuffixChain` of src/log/index_local_suffix.cpp: a link for each view. `fatal` is also a read
-- that the language leaves undefined, such as the last link of an empty chain.
use mathlib.Core.List.{reverse}
use ixe.Prelude.{
  ℕ, ◌-◌, Option, none, some, List, [], ◌∷◌, length, ltb, leb, ◌==◌, if◌then◌else◌, Outcome, ok,
  fatal, ◌>>=◌, at_or_fatal,
}
use ixe.Prelude.Maps.{contains, insert}
use ixe.Bits.{join_two32, get_view_id}
use ixe.LogSpace.Base.{identifier}
use ixe.Query.{IndexQuery, IndexQueryResult}
use ixe.SuffixChain.Link.{
  SeqnumSuffixLink, last, new_suffix_link, entries_of, with_entries, link_clear, trim_entries,
  entries_head, entries_tail, entries_find_next, entries_find_prev,
}

-- By rising view.
abbrev pub Links : Type 0
Links = List (ℕ × SeqnumSuffixLink)

pub record SeqnumSuffixChain : Type 0 where
  pub sequence_number_id : ℕ
  pub max_suffix_seq_entries : ℕ
  pub current_entries : ℕ
  pub suffix_chain : Links
  pub pending_queries : List (ℕ × IndexQuery)
  pub pending_query_results : List IndexQueryResult

unfoldable pub new_chain : ℕ → ℕ → SeqnumSuffixChain
new_chain sequence_number_id max_suffix_seq_entries = record {
  sequence_number_id = sequence_number_id;
  max_suffix_seq_entries = max_suffix_seq_entries;
  current_entries = 0;
  suffix_chain = [];
  pending_queries = [];
  pending_query_results = [];
}

-- `emplace` leaves a link that is there. The shards are those that the view gives the sequencer.
unfoldable pub extend_chain : ℕ → List ℕ → ℕ → SeqnumSuffixChain → SeqnumSuffixChain
extend_chain view_id shard_ids metalog_position c = record c {
  suffix_chain =
      if contains view_id c.suffix_chain
      then c.suffix_chain
      else insert view_id (new_suffix_link view_id c.sequence_number_id shard_ids metalog_position)
          c.suffix_chain;
}

unfoldable pub clear_links : Links → Links
clear_links [] = []
clear_links ((v, l) ∷ rest) = (v, link_clear l) ∷ clear_links rest

unfoldable pub clear_chain : SeqnumSuffixChain → SeqnumSuffixChain
clear_chain c = record c { suffix_chain = clear_links c.suffix_chain; current_entries = 0 }

-- `Trim`, with what is left of the counter: whole links from the front, and then the front of the
-- next one.
unfoldable pub trim_links : ℕ → Links → Links × ℕ
trim_links counter [] = ([], counter)
trim_links counter ((v, l) ∷ rest) =
    let later = trim_links (counter - length (entries_of l)) rest in
    let t = trim_entries counter (entries_of l) in
    if ltb counter (length (entries_of l)) then ((v, with_entries t.0 l) ∷ rest, t.1) else later

unfoldable pub last_link : SeqnumSuffixChain → Outcome (ℕ × SeqnumSuffixLink)
last_link c = at_or_fatal (last c.suffix_chain)

unfoldable pub chain_metalog_position : SeqnumSuffixChain → Outcome ℕ
unfolding last_link
chain_metalog_position c = last_link c >>= λ l. ok l.1.core.metalog_position

unfoldable pub chain_metalog_progress : SeqnumSuffixChain → Outcome ℕ
unfolding last_link identifier
chain_metalog_progress c =
    last_link c >>= λ l. ok (join_two32 (identifier l.1.core) l.1.core.metalog_position)

unfoldable pub chain_view_id : SeqnumSuffixChain → Outcome ℕ
unfolding last_link
chain_view_id c = last_link c >>= λ l. ok l.1.core.view_id

abbrev pub head_of : SeqnumSuffixLink → Outcome (ℕ × ℕ)
head_of l = entries_head (identifier l.core) (entries_of l)

abbrev pub tail_of : SeqnumSuffixLink → Outcome (ℕ × ℕ)
tail_of l = entries_tail (identifier l.core) (entries_of l)

-- From the first link that is not empty.
unfoldable pub first_filled : Links → Links
first_filled [] = []
first_filled ((v, l) ∷ rest) =
    let later = first_filled rest in if length (entries_of l) == 0 then later else (v, l) ∷ rest

unfoldable pub chain_get_head : Links → Outcome (Option (ℕ × ℕ))
chain_get_head links = elim (first_filled links) [
  | [] ↦ ok none
  | l ∷ rest ↦ head_of l.1 >>= λ r. ok (some r)
]

unfoldable pub chain_get_tail : Links → Outcome (Option (ℕ × ℕ))
chain_get_tail links = elim (first_filled (reverse links)) [
  | [] ↦ ok none
  | l ∷ rest ↦ tail_of l.1 >>= λ r. ok (some r)
]

-- The links from `lower_bound` on, and those before it in reverse.
unfoldable pub from_link : ℕ → Links → Links
from_link view_id [] = []
from_link view_id ((v, l) ∷ rest) =
    let later = from_link view_id rest in if ltb v view_id then later else (v, l) ∷ rest

unfoldable pub before_link : ℕ → Links → Links → Links
before_link view_id seen [] = seen
before_link view_id seen ((v, l) ∷ rest) =
    let more = before_link view_id ((v, l) ∷ seen) rest in if ltb v view_id then more else seen

-- What a read comes to: the number and its shard, none that is known, or none.
pub data ChainAnswer : Type 0 where
  found : ℕ → ℕ → ChainAnswer
  missing : ChainAnswer
  nothing : ChainAnswer

abbrev pub hit : ℕ × ℕ → ChainAnswer
hit r = found r.0 r.1

-- Between head and tail: the first filled link from the query's view on, then the next filled one.
unfoldable pub next_among_links : ℕ → Links → Outcome ChainAnswer
next_among_links query_seqnum links = elim (first_filled links) [
  | [] ↦ ok missing
  | l ∷ rest ↦ entries_find_next (identifier l.1.core) query_seqnum (entries_of l.1) >>= λ o.
      elim o [
        | some r ↦ ok (hit r)
        | none ↦ elim (first_filled rest) [
          | [] ↦ ok nothing
          | u ∷ later ↦ head_of u.1 >>= λ r. ok (hit r)
        ]
      ]
]

unfoldable pub chain_find_next : ℕ → Links → Outcome ChainAnswer
chain_find_next q links = chain_get_head links >>= λ h. elim h [
  | none ↦ ok missing
  | some head ↦
      if q == head.0
      then ok (hit head)
      else if ltb q head.0
      then ok missing
      else (chain_get_tail links >>= λ t. elim t [
        | none ↦ next_among_links q (from_link (get_view_id q) links)
        | some tail ↦
            if tail.0 == q
            then ok (hit tail)
            else if ltb tail.0 q
            then ok nothing
            else next_among_links q (from_link (get_view_id q) links)
      ])
]

-- Between head and tail: the first filled link from `lower_bound` backwards.
unfoldable pub prev_among_links : ℕ → Links → Outcome ChainAnswer
prev_among_links query_seqnum links = elim (first_filled links) [
  | [] ↦ ok missing
  | l ∷ rest ↦ entries_find_prev (identifier l.1.core) query_seqnum (entries_of l.1) >>= λ o.
      elim o [ some r ↦ ok (hit r) | none ↦ ok missing ]
]

unfoldable pub prev_from_view : ℕ → Links → Outcome ChainAnswer
prev_from_view q links = elim (from_link (get_view_id q) links) [
  | [] ↦ fatal
  | l ∷ later ↦ prev_among_links q (l ∷ before_link (get_view_id q) [] links)
]

unfoldable pub chain_find_prev : ℕ → Links → Outcome ChainAnswer
chain_find_prev q links = chain_get_head links >>= λ h. elim h [
  | none ↦ ok missing
  | some head ↦
      if q == head.0
      then ok (hit head)
      else if ltb q head.0
      then ok missing
      else (chain_get_tail links >>= λ t. elim t [
        | none ↦ prev_from_view q links
        | some tail ↦ if leb tail.0 q then ok (hit tail) else prev_from_view q links
      ])
]
