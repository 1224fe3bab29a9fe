-- ===== src/SuffixChain/Trim.antt =====
-- `Trim` of `SeqnumSuffixChain` (src/log/index_local_suffix.cpp) takes the oldest entries.
use ixe.Prelude.{
  ℕ, ◌+◌, ◌-◌, ◌^◌, ◌≤◌, ◌<◌, ◌≡◌, inl, inr, refl, sym, ap, ◌∙◌, [], ◌∷◌, ◌++◌, drop, drop-nil,
  drop-append_within, drop-append_past, length, length-append, length-drop, ltb, Bool-cases, ltb→lt,
  arith,
}
use ixe.SuffixChain.Link.{Entries, entries_of, trim_entries}
use ixe.SuffixChain.Chain.{Links, SeqnumSuffixChain, trim_links}
use ixe.SuffixChain.Reads.{trim_chain}

-- The entries of all links, from the oldest on.
abbrev pub all_entries : Links → Entries
all_entries [] = []
all_entries ((v, l) ∷ rest) = entries_of l ++ all_entries rest

-- `Trim` takes as many of the oldest entries out of the chain as the counter says, or all, and leaves
-- the others in their order; the counter is left with what it could not take.
pub trim_links_lem :
    (counter : ℕ) (links : Links)
    → (all_entries (trim_links counter links).0 ≡ drop counter (all_entries links))
      × ((trim_links counter links).1 ≡ counter - length (all_entries links))
unfolding trim_links trim_entries
trim_links_lem counter [] = (sym (drop-nil counter), omega arith)
trim_links_lem counter ((v, l) ∷ rest) =
    let es = entries_of l in
    let (left, count) = trim_links_lem (counter - length es) rest in
    let width = length-append es (all_entries rest) in
    elim (Bool-cases (ltb counter (length es))) [
      | inl within ↦
          let low = ltb→lt counter (length es) within in
          rw within (
            sym (drop-append_within counter es (all_entries rest) (omega (arith, low))),
            omega (arith, low, width),
          )
      | inr past ↦
          let over : counter ≡ length es + (counter - length es) = ground arith in
          rw past (
            left ∙ sym (drop-append_past counter (counter - length es) es (all_entries rest) over),
            omega (arith, width, count),
          )
    ]

-- Where the chain has more entries than its limit and `current_entries_` counts them, `Trim` of so many
-- of them that the level asks for takes the oldest, and `current_entries_` counts the others. With no
-- more entries than the limit nothing is trimmed.
pub trim_chain_lem :
    (trim_count : ℕ → ℕ) (c : SeqnumSuffixChain)
    → ((n : ℕ) → trim_count n ≤ n)
    → c.current_entries ≡ length (all_entries c.suffix_chain)
    → c.current_entries < 2 ^ 64
    → let c' = trim_chain trim_count c in
      (c'.current_entries ≡ length (all_entries c'.suffix_chain))
      × (c.max_suffix_seq_entries < c.current_entries
          → all_entries c'.suffix_chain
            ≡ drop (trim_count c.current_entries) (all_entries c.suffix_chain))
      × (c.current_entries ≤ c.max_suffix_seq_entries → c'.suffix_chain ≡ c.suffix_chain)
unfolding trim_chain
trim_chain_lem trim_count c level counted small =
    let n = trim_count c.current_entries in
    let (left, count) = trim_links_lem n c.suffix_chain in
    let width = ap (λ (l : Entries). length l) left ∙ length-drop n (all_entries c.suffix_chain) in
    elim (Bool-cases (ltb c.max_suffix_seq_entries c.current_entries)) [
      | inl over ↦ simp over (
        omega (arith, width, level c.current_entries, counted),
        λ h. left,
        λ h. absurd (omega (arith, h, ltb→lt c.max_suffix_seq_entries c.current_entries over)),
      )
      | inr within ↦ simp within (counted, λ h. absurd (ground arith), λ h. refl)
    ]
