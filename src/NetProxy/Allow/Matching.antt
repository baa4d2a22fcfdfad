-- ===== src/NetProxy/Allow/Matching.antt =====
-- crates/bubbler-net-proxy/src/allow.rs: which names and ports a list of allowed targets covers.
use bubbler.Prelude.{
  ℕ, suc, ◌^◌, ◌≡◌, ◌≤◌, ◌<◌, refl, sym, ap, ◌∙◌, Bool, true, false, some, ◌⊎◌, inl, inr, List, [],
  ◌∷◌, ◌++◌, map, length, get_elem?, Result, ok, >>=-eq-ok, bind_ok_or_inv, bind_refuse_if_inv, ltb,
  ◌==◌, ==_iff, =b=_sound, not, ◌&&◌, ◌||◌, if◌then◌else◌, is_digit, to_lower, arith, Bool-cases,
}
use mathlib.Core.Path.{subst}
use mathlib.Core.Bool.{true≢false}
use bubbler.NetProxy.Allow.{
  max_name, name_too_long, only_wildcard, address, bad_port_digits, bad_port, HostPattern,
  NameError, Allowlist, check_label, is_ok, are_labels, eq_ignore_ascii_case, same_labels,
  remove_first, matches, join, split, extend, strip_dot, is_nil, last_is_digits, parse, read_labels,
  entry, parse_entries, parse_list, any_matches, allows, rsplit_once, all, digits_value,
}

abbrev pub lower : List ℕ → List ℕ
lower text = map to_lower text

join-extend : (b : ℕ) (pieces : List (List ℕ)) → join (extend b pieces) ≡ b ∷ join pieces
unfolding join extend
join-extend b [] = refl
join-extend b (p ∷ []) = refl
join-extend b (p ∷ q ∷ ps) = refl

join-nil :
    (pieces : List (List ℕ)) → is_nil pieces ≡ false → join ([] ∷ pieces) ≡ b'.' ∷ join pieces
unfolding join is_nil
join-nil [] h = cc
join-nil (p ∷ ps) h = refl

split_some : (c : ℕ) (s : List ℕ) → is_nil (split c s) ≡ false
unfolding split is_nil extend
split_some c [] = refl
split_some c (b ∷ bs) = ground (arith, split_some c bs)

join-split : (s : List ℕ) → join (split b'.' s) ≡ s
unfolding split
join-split [] = unfold join in refl
join-split (b ∷ bs) = elim (Bool-cases (b == b'.')) [
  | inl e ↦
      rw (e)
        (join-nil (split b'.' bs) (split_some b'.' bs) ∙ rw (join-split bs, (==_iff b b'.').0 e))
  | inr e ↦ rw (e) (join-extend b (split b'.' bs) ∙ ap (λ s. b ∷ s) (join-split bs))
]

map-append : (a b : List ℕ) → lower (a ++ b) ≡ lower a ++ lower b
map-append [] b = refl
map-append (x ∷ a) b = ap (λ s. to_lower x ∷ s) (map-append a b)

-- Labels that agree but for case are written alike but for case.
lower-join : (gs ls : List (List ℕ)) → same_labels gs ls ≡ true → lower (join gs) ≡ lower (join ls)
unfolding same_labels join eq_ignore_ascii_case
lower-join [] [] h = refl
lower-join [] (l ∷ ls) h = cc
lower-join (g ∷ gs) [] h = cc
lower-join (g ∷ []) (l ∷ []) h = =b=_sound (lower g) (lower l) (ground arith)
lower-join (g ∷ []) (l ∷ l' ∷ ls) h = absurd (ground arith)
lower-join (g ∷ g' ∷ gs) (l ∷ []) h = absurd (ground arith)
lower-join (g ∷ g' ∷ gs) (l ∷ l' ∷ ls) h =
    let first : lower g ≡ lower l = =b=_sound (lower g) (lower l) (ground arith) in
    let others = lower-join (g' ∷ gs) (l' ∷ ls) (ground arith) in
    map-append g (b'.' ∷ join (g' ∷ gs))
    ∙ (rw (first, others) (sym (map-append l (b'.' ∷ join (l' ∷ ls)))))

-- What a pattern covers: a name of at most 253 bytes that is the pattern's own, but for case and one
-- trailing dot, or that with exactly one label and a dot in front where the pattern has a wildcard.
abbrev pub Covers : HostPattern → List ℕ → Type 0
Covers pattern host =
    (length host ≤ 253)
    × (((pattern.wildcard ≡ false) × (lower (strip_dot host) ≡ lower (join pattern.labels)))
        ⊎ ((pattern.wildcard ≡ true)
            × ((label : List ℕ) × (is_ok (check_label label) ≡ true)
                × (lower (strip_dot host) ≡ lower (label ++ (b'.' ∷ join pattern.labels))))))

-- The first label of a host that a wildcard matches, and the rest of it.
wild_label :
    (got labels : List (List ℕ))
    → is_nil labels ≡ false
    → are_labels got ≡ true
    → same_labels (remove_first got) labels ≡ true
    → (label : List ℕ) × (is_ok (check_label label) ≡ true)
      × (lower (join got) ≡ lower (label ++ (b'.' ∷ join labels)))
unfolding is_nil are_labels remove_first
wild_label got [] some_label valid h = cc
wild_label [] (l ∷ ls) some_label valid h = unfold same_labels in cc
wild_label (g ∷ []) (l ∷ ls) some_label valid h = unfold same_labels in cc
wild_label (g ∷ g' ∷ gs) (l ∷ ls) some_label valid h = (
  g,
  ground arith,
  unfold join in
      map-append g (b'.' ∷ join (g' ∷ gs))
      ∙ (rw (lower-join (g' ∷ gs) (l ∷ ls) h) (sym (map-append g (b'.' ∷ join (l ∷ ls))))),
)

pick :
    (wildcard : Bool) (got labels : List (List ℕ))
    → same_labels (if wildcard then remove_first got else got) labels ≡ true
    → ((wildcard ≡ false) × (same_labels got labels ≡ true))
      ⊎ ((wildcard ≡ true) × (same_labels (remove_first got) labels ≡ true))
pick true got labels h = inr (refl, h)
pick false got labels h = inl (refl, h)

matches_inv :
    (pattern : HostPattern) (host : List ℕ)
    → matches pattern host ≡ true
    → (length host ≤ 253)
      × (are_labels (split b'.' (strip_dot host)) ≡ true)
      × (same_labels
            (if pattern.wildcard
              then remove_first (split b'.' (strip_dot host))
              else split b'.' (strip_dot host))
            pattern.labels
          ≡ true)
unfolding matches
matches_inv pattern host h = (ground arith, ground arith, ground arith)

-- A pattern with labels covers only what it says: a host that it matches is its own name, or that with
-- one valid label in front where it has a wildcard, but for case and one trailing dot.
pub matches-Covers :
    (pattern : HostPattern) (host : List ℕ)
    → is_nil pattern.labels ≡ false
    → matches pattern host ≡ true
    → Covers pattern host
matches-Covers pattern host some_label h =
    let (fits, valid, agree) = matches_inv pattern host h in
    let whole = ap lower (join-split (strip_dot host)) in
    (
      fits,
      elim (pick pattern.wildcard (split b'.' (strip_dot host)) pattern.labels agree) [
        | inl (e, same) ↦ inl (e, sym whole ∙ lower-join _ _ same)
        | inr (e, same) ↦
            let (label, ok_label, written) = wild_label _ _ some_label valid same in
            inr (e, (label, ok_label, sym whole ∙ written))
      ],
    )

ok-injective {ℓ} : {A : Type ℓ} (a b : A) → ◌≡◌ {A = Result NameError A} (ok a) (ok b) → a ≡ b
ok-injective a b h = cc

parse_some :
    (s : List ℕ) (pattern : HostPattern) → parse s ≡ ok pattern → is_nil pattern.labels ≡ false
unfolding parse
parse_some s pattern h =
    let (fits, h1) = bind_refuse_if_inv (ltb max_name (length s)) name_too_long _ h in
    let ((labels, wildcard), e1, h2) = >>=-eq-ok (read_labels (split b'.' (strip_dot s))) _ h1 in
    let (some_label, h3) = bind_refuse_if_inv (is_nil labels) only_wildcard _ h2 in
    let (named, h4) = bind_refuse_if_inv (last_is_digits labels) address _ h3 in
    subst (λ p. is_nil p.labels ≡ false) (ok-injective _ pattern h4) some_label

port_range : (n : ℕ) → ((n == 0) || not (ltb n (2 ^ 16))) ≡ false → (0 < n) × (n < 2 ^ 16)
port_range n h = ground arith

entry_inv :
    (word : List ℕ) (grant : HostPattern × ℕ)
    → entry word ≡ ok grant
    → (is_nil grant.0.labels ≡ false) × (0 < grant.1) × (grant.1 < 2 ^ 16)
unfolding entry
entry_inv word grant h =
    let ((name, port), e1, h1) = bind_ok_or_inv (rsplit_once b':' word) _ _ h in
    let (p, e2, h2) = >>=-eq-ok (parse name) _ h1 in
    let (shape, h3) =
      bind_refuse_if_inv (length port == 0 || (ltb 5 (length port) || not (all is_digit port)))
        bad_port_digits _ h2 in
    let (range, h4) =
      bind_refuse_if_inv (digits_value 0 port == 0 || not (ltb (digits_value 0 port) (2 ^ 16)))
        bad_port _ h3 in
    let (positive, small) = port_range (digits_value 0 port) range in
    subst (λ g. (is_nil g.0.labels ≡ false) × (0 < g.1) × (g.1 < 2 ^ 16)) (ok-injective _ grant h4)
      (parse_some name p e2, positive, small)

any_cases : (a b c : Bool) → ((a && b) || c) ≡ true → ((a ≡ true) × (b ≡ true)) ⊎ (c ≡ true)
any_cases a b c h = ground arith

-- The entry of a list that allows a target, and the word that it was read from.
any_matches_inv :
    (words : List (List ℕ)) (entries : List (HostPattern × ℕ)) (host : List ℕ) (port : ℕ)
    → parse_entries words ≡ ok entries
    → any_matches entries host port ≡ true
    → (at : ℕ) × (word : List ℕ) × (pattern : HostPattern) × (get_elem? words at ≡ some word)
      × (entry word ≡ ok (pattern, port))
      × (matches pattern host ≡ true)
unfolding parse_entries any_matches
any_matches_inv [] entries host port h k =
    let none_left : entries ≡ [] = cc in
    absurd (true≢false (sym k ∙ ap (λ es. any_matches es host port) none_left))
any_matches_inv (word ∷ words) entries host port h k =
    let ((pattern, allowed), e1, h1) = >>=-eq-ok (entry word) _ h in
    let (rest, e2, h2) = >>=-eq-ok (parse_entries words) _ h1 in
    let k' : any_matches ((pattern, allowed) ∷ rest) host port ≡ true =
      ap (λ es. any_matches es host port) (ok-injective _ entries h2) ∙ k in
    elim (any_cases (allowed == port) (matches pattern host) (any_matches rest host port) k') [
      | inl (same, here) ↦ (
        0,
        word,
        pattern,
        refl,
        e1 ∙ ap (λ n. ok (pattern, n)) ((==_iff allowed port).0 same),
        here,
      )
      | inr there ↦
          let (at, w, q, found, read, m) = any_matches_inv words rest host port e2 there in
          (suc at, w, q, found, read, m)
    ]

-- A list that was read from words allows a target only where one of the words says so: that word's
-- own port, from 1 to 65535, and a name that its pattern covers.
pub allows-Covers :
    (words : List (List ℕ)) (list : Allowlist) (host : List ℕ) (port : ℕ)
    → parse_list words ≡ ok list
    → allows list host port ≡ true
    → (at : ℕ) × (word : List ℕ) × (pattern : HostPattern) × (get_elem? words at ≡ some word)
      × (entry word ≡ ok (pattern, port))
      × (0 < port)
      × (port < 2 ^ 16)
      × Covers pattern host
unfolding parse_list allows
allows-Covers words list host port h k =
    let (entries, e1, h1) = >>=-eq-ok (parse_entries words) _ h in
    let k' : any_matches entries host port ≡ true =
      ap (λ l. any_matches l.entries host port) (ok-injective _ list h1) ∙ k in
    let (at, word, pattern, found, read, m) = any_matches_inv words entries host port e1 k' in
    let (some_label, positive, small) = entry_inv word (pattern, port) read in
    (at, word, pattern, found, read, positive, small, matches-Covers pattern host some_label m)
