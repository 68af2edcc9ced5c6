-- ===== src/LogQuerier/Hosts/Laws.antt =====
-- Which hosts `resolveHosts` yields.
use mathlib.Core.List.{Perm, Mem, Nodup, Nodup-cons, not-mem-nil, eq-or-mem_of_mem-cons}
use mathlib.Core.List.Perm
use mathlib.Core.Logic.Or
use mathlib.Core.List.Pairwise
use mathlib.Core.HLevel.{⊥_prop}
use distributed_group_member.Common.{
  ◌≡◌, refl, sym, ap, ◌∙◌, Bool, true, ◌||◌, List, [], ◌∷◌, some, arith,
}
use distributed_group_member.Common.Dict.{insert, keys, IsUnique, IsFresh, insert-IsUnique}
use distributed_group_member.Common.Dict.Loops.{is_in}
use distributed_group_member.Types.{Text, Text-discrete}
use distributed_group_member.LogQuerier.Hosts.{
  sort_strings, HostsFile, named_hosts, unique, resolve_hosts,
}
use distributed_group_member.LogQuerier.Hosts.Order.{
  IsAscending, IsAscending-eq, is_in_iff, sort_strings-Perm, sort_strings-IsAscending,
}

-- The dictionary has each key once.
keys-fresh : (k : Text) (m : List (Text × Bool)) → IsFresh k m → ¬ Mem k (keys m)
keys-fresh k [] f = not-mem-nil
keys-fresh k ((j, b) ∷ m) f =
    λ e. Or.elim ⊥_prop (eq-or-mem_of_mem-cons e) (λ q. f.0 (sym q)) (keys-fresh k m f.1)

keys-Nodup : (m : List (Text × Bool)) → IsUnique m → Nodup (keys m)
keys-Nodup [] u = Pairwise.nil
keys-Nodup ((k, b) ∷ m) u = Nodup-cons.1 (keys-fresh k m u.0, keys-Nodup m u.1)

unique-IsUnique : (hs : List Text) (m : List (Text × Bool)) → IsUnique m → IsUnique (unique hs m)
unfolding unique
unique-IsUnique [] m u = u
unique-IsUnique (h ∷ hs) m u =
    unique-IsUnique hs (insert Text-discrete h true m) (insert-IsUnique Text-discrete h true m u)

is_in-insert :
    (h j : Text) (m : List (Text × Bool))
    → is_in Text-discrete j (keys (insert Text-discrete h true m))
      ≡ (is_in Text-discrete j (h ∷ []) || is_in Text-discrete j (keys m))
unfolding is_in insert
is_in-insert h j [] = ground arith
is_in-insert h j ((k, b) ∷ m) = ground (arith, is_in-insert h j m)

is_in-unique :
    (hs : List Text) (j : Text) (m : List (Text × Bool))
    → is_in Text-discrete j (keys (unique hs m))
      ≡ (is_in Text-discrete j hs || is_in Text-discrete j (keys m))
unfolding is_in unique
is_in-unique [] j m = refl
is_in-unique (h ∷ hs) j m =
    ground (arith, is_in-unique hs j (insert Text-discrete h true m), is_in-insert h j m)

is_in-Perm :
    (h : Text) (l l' : List Text) → Perm l l' → is_in Text-discrete h l ≡ is_in Text-discrete h l'
is_in-Perm h l l' p = ground (
  arith,
  (is_in_iff h l).0,
  (is_in_iff h l).1,
  (is_in_iff h l').0,
  (is_in_iff h l').1,
  (Perm.mem_iff {a = h} p).0,
  (Perm.mem_iff {a = h} p).1,
)

or_none :
    (h : Text) (hosts : List Text)
    → (is_in Text-discrete h hosts || is_in Text-discrete h (keys {K = Text} {V = Bool} []))
      ≡ is_in Text-discrete h hosts
unfolding is_in
or_none h hosts = ground arith

-- What a call without an error yields: the hosts that are named, in ascending order, each once.
pub record Resolved (hosts result : List Text) : Type 0 where
  pub ascending : IsAscending result
  pub same : (h : Text) → is_in Text-discrete h result ≡ is_in Text-discrete h hosts

module _ (order : List Text → List Text) (permutes : (l : List Text) → Perm (order l) l) where
  Resolved-with :
      (hosts : List Text) → Resolved hosts (sort_strings (order (keys (unique hosts []))))
  Resolved-with hosts =
      let m = unique hosts [] in
      let once = keys-Nodup m (unique-IsUnique hosts [] tt) in
      let sorted = sort_strings-Perm (order (keys m)) in
      let all = Perm.trans sorted (permutes (keys m)) in
      record {
        ascending =
            sort_strings-IsAscending (order (keys m))
              (Perm.nodup (Perm.symm (permutes (keys m))) once);
        same = λ h. is_in-Perm h _ (keys m) all ∙ is_in-unique hosts h [] ∙ or_none h hosts;
      }

  pub resolve_hosts-Resolved :
      (explicit : List Text) (file : HostsFile) (hosts : List Text)
      → named_hosts explicit file ≡ some hosts
      → (result : List Text) × (resolve_hosts order explicit file ≡ some result)
        × Resolved hosts result
  unfolding resolve_hosts
  resolve_hosts-Resolved explicit file hosts e = (
    sort_strings (order (keys (unique hosts []))),
    rw (resolve_hosts, e) refl,
    Resolved-with hosts,
  )

-- The list of hosts depends on nothing but which hosts are named: options that name the same hosts, in
-- whatever order, however often and wherever, yield one list, for any two orders of the loop over the map,
-- where the hosts files can be opened and read.
pub resolve_hosts_canonical :
    (order order' : List Text → List Text)
    → ((l : List Text) → Perm (order l) l)
    → ((l : List Text) → Perm (order' l) l)
    → (explicit explicit' : List Text) (file file' : HostsFile) (hosts hosts' : List Text)
    → named_hosts explicit file ≡ some hosts
    → named_hosts explicit' file' ≡ some hosts'
    → ((h : Text) → is_in Text-discrete h hosts ≡ is_in Text-discrete h hosts')
    → resolve_hosts order explicit file ≡ resolve_hosts order' explicit' file'
resolve_hosts_canonical order order' p p' explicit explicit' file file' hosts hosts' e e' same =
    let (l, found, r) = resolve_hosts-Resolved order p explicit file hosts e in
    let (l', found', r') = resolve_hosts-Resolved order' p' explicit' file' hosts' e' in
    let one =
      IsAscending-eq l l' r.ascending r'.ascending (λ h. r.same h ∙ same h ∙ sym (r'.same h)) in
    found ∙ ap some one ∙ sym found'
