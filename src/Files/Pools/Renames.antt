-- ===== src/Files/Pools/Renames.antt =====
-- The new name of a renamed file, in internal/api/router.go: it stays in its directory.
use mathlib.Core.List.{reverse, reverse-cons, reverse-reverse, append_assoc, append-nil}
use kilasos.Common.{
  ◌⊎◌, inl, inr, ◌≡◌, refl, sym, ap, ◌∙◌, Bool, true, false, List, [], ◌∷◌, ◌++◌, All, All-append,
  ◌==◌, ==_iff, nat_eq, bytes_eq, if◌then◌else◌, arith,
}
use kilasos.Auth.Crypto.{Bytes}
use kilasos.Files.Paths.{
  mnt_name, dot, dot_dot, split, add_part, add_parts, is_rooted, clean, join_parts,
}
use kilasos.Files.Paths.Parts.{NoSlash, IsName, below, join_parts-below}
use kilasos.Files.Pools.{up_to_slash, dir, join_path}
use kilasos.Files.Pools.Names.{split_whole, tail_eq}
use kilasos.Files.Pools.Inside.{root, IsInPool}

if_same {ℓ} : {A : Type ℓ} (b : Bool) (x : A) → (if b then x else x) ≡ x
if_same true x = refl
if_same false x = refl

split_at_slash :
    (part rest : Bytes) → NoSlash part → split (part ++ (b'/' ∷ rest)) ≡ part ∷ split rest
unfolding split
split_at_slash [] rest h = refl
split_at_slash (c ∷ part) rest h = ground (arith, ==_iff c b'/', h.0, split_at_slash part rest h.1)

-- Names and a last part are cut again into what they were made of.
split-below :
    (parts : List Bytes) (tail : Bytes)
    → All IsName parts
    → split (below parts ++ (b'/' ∷ tail)) ≡ [] ∷ (parts ++ split tail)
unfolding split
split-below [] tail all = refl
split-below (part ∷ []) tail all =
    ap (λ (x : List Bytes). [] ∷ x) (rw (append-nil part) (split_at_slash part tail all.0.3))
split-below (part ∷ next ∷ parts) tail all =
    let after = next ++ below parts in
    ap (λ (x : List Bytes). [] ∷ x)
      (ap split (append_assoc part (b'/' ∷ after) (b'/' ∷ tail))
        ∙ (split_at_slash part (after ++ (b'/' ∷ tail)) all.0.3
            ∙ ap (λ (x : List Bytes). part ∷ x) (tail_eq (split-below (next ∷ parts) tail all.1))))

add_part_name :
    (stack : List Bytes) (part : Bytes) → IsName part → add_part true stack part ≡ part ∷ stack
unfolding add_part
add_part_name stack part h = ground (arith, ==_iff part [], ==_iff part dot, ==_iff part dot_dot)

add_parts_names :
    (stack parts more : List Bytes)
    → All IsName parts
    → add_parts true stack (parts ++ more) ≡ add_parts true (reverse parts ++ stack) more
unfolding add_parts
add_parts_names stack [] more all = refl
add_parts_names stack (part ∷ parts) more all =
    ap (λ s. add_parts true s (parts ++ more)) (add_part_name stack part all.0)
    ∙ (add_parts_names (part ∷ stack) parts more all.1
        ∙ ap (λ s. add_parts true s more)
            (sym (append_assoc (reverse parts) (part ∷ []) stack)
              ∙ ap (λ (x : List Bytes). x ++ stack) (sym (reverse-cons part parts))))

no_slash : (last : Bytes) → NoSlash last → up_to_slash last ≡ []
unfolding up_to_slash
no_slash [] h = refl
no_slash (c ∷ rest) h = ground (arith, ==_iff c b'/', h.0, no_slash rest h.1)

ends_in_slash : (front : Bytes) → (front ++ (b'/' ∷ []) == []) ≡ false
ends_in_slash [] = refl
ends_in_slash (c ∷ front) = refl

up_to_slash_last :
    (front last : Bytes)
    → NoSlash last
    → up_to_slash (front ++ (b'/' ∷ last)) ≡ front ++ (b'/' ∷ [])
unfolding up_to_slash
up_to_slash_last [] last h = ap (λ (x : Bytes). b'/' ∷ x) (no_slash last h)
up_to_slash_last (c ∷ front) last h =
    rw (up_to_slash_last front last h, ends_in_slash front)
      (if_same (c == b'/') (c ∷ (front ++ (b'/' ∷ []))))

below-is_rooted :
    (parts : List Bytes) (tail : Bytes) → is_rooted (below parts ++ (b'/' ∷ tail)) ≡ true
below-is_rooted [] tail = refl
below-is_rooted (part ∷ parts) tail = refl

-- Cleaning leaves names as they are.
clean-below :
    (parts : List Bytes) (tail : Bytes)
    → All IsName parts
    → clean (below parts ++ (b'/' ∷ tail))
      ≡ b'/' ∷ join_parts (reverse (add_parts true (reverse parts ++ []) (split tail)))
unfolding clean add_parts add_part
clean-below parts tail all =
    rw (below-is_rooted parts tail, split-below parts tail all)
      (ap (λ s. b'/' ∷ join_parts (reverse s)) (add_parts_names [] parts (split tail) all))

below_last :
    (parts : List Bytes) (last : Bytes)
    → below (parts ++ (last ∷ [])) ≡ below parts ++ (b'/' ∷ last)
below_last [] last = ap (λ (x : Bytes). b'/' ∷ x) (append-nil last)
below_last (part ∷ parts) last =
    ap (λ (x : Bytes). b'/' ∷ (part ++ x)) (below_last parts last)
    ∙ ap (λ (x : Bytes). b'/' ∷ x) (sym (append_assoc part (below parts) (b'/' ∷ last)))

reverse_back : (parts : List Bytes) → reverse (reverse parts ++ []) ≡ parts
reverse_back parts = ap reverse (append-nil (reverse parts)) ∙ reverse-reverse parts

clean_dir :
    (part : Bytes) (parts : List Bytes)
    → All IsName (part ∷ parts)
    → clean (below (part ∷ parts) ++ (b'/' ∷ [])) ≡ below (part ∷ parts)
unfolding split add_parts add_part
clean_dir part parts all =
    clean-below (part ∷ parts) [] all
    ∙ (ap (λ s. b'/' ∷ join_parts s) (reverse_back (part ∷ parts)) ∙ join_parts-below part parts)

join_parts-append :
    (parts : List Bytes) (last : Bytes)
    → b'/' ∷ join_parts (parts ++ (last ∷ [])) ≡ below (parts ++ (last ∷ []))
join_parts-append [] last = join_parts-below last []
join_parts-append (part ∷ parts) last = join_parts-below part (parts ++ (last ∷ []))

pub clean_new :
    (parts : List Bytes) (last : Bytes)
    → All IsName parts
    → IsName last
    → clean (below parts ++ (b'/' ∷ last)) ≡ below (parts ++ (last ∷ []))
unfolding add_parts
clean_new parts last all name =
    let stack = reverse parts ++ [] in
    clean-below parts last all
    ∙ (ap (λ more. b'/' ∷ join_parts (reverse (add_parts true stack more)))
          (split_whole last name.3)
        ∙ (ap (λ s. b'/' ∷ join_parts (reverse s)) (add_part_name stack last name)
            ∙ (ap (λ s. b'/' ∷ join_parts s)
                  (reverse-cons last stack
                    ∙ ap (λ (x : List Bytes). x ++ (last ∷ [])) (reverse_back parts))
                ∙ join_parts-append parts last)))

dir_lem :
    (part : Bytes) (parts : List Bytes) (last : Bytes)
    → All IsName (part ∷ parts)
    → NoSlash last
    → dir (below ((part ∷ parts) ++ (last ∷ []))) ≡ below (part ∷ parts)
unfolding dir
dir_lem part parts last all n =
    ap (λ x. clean (up_to_slash x)) (below_last (part ∷ parts) last)
    ∙ (ap clean (up_to_slash_last (below (part ∷ parts)) last n) ∙ clean_dir part parts all)

pub join_path_name :
    (part : Bytes) (parts : List Bytes) (name : Bytes)
    → All IsName (part ∷ parts)
    → IsName name
    → join_path (below (part ∷ parts)) name ≡ below ((part ∷ parts) ++ (name ∷ []))
unfolding join_path
join_path_name part parts [] all n = absurd (n.0 refl)
join_path_name part parts (c ∷ name) all n = clean_new (part ∷ parts) (c ∷ name) all n

pub mnt-IsName : IsName mnt_name
mnt-IsName =
    (ground arith, ground arith, ground arith, (ground arith, (ground arith, (ground arith, tt))))

-- The new path has the new name in place of the last one.
renamed :
    (part : Bytes) (parts : List Bytes) (last name : Bytes)
    → All IsName (part ∷ parts)
    → NoSlash last
    → IsName name
    → join_path (dir (below ((part ∷ parts) ++ (last ∷ [])))) name
      ≡ below ((part ∷ parts) ++ (name ∷ []))
renamed part parts last name all m n =
    ap (λ x. join_path x name) (dir_lem part parts last all m)
    ∙ join_path_name part parts name all n

record EndsIn (parts : List Bytes) : Type 0 where
  front : List Bytes
  last : Bytes
  front_names : All IsName front
  last_name : IsName last
  put_together : parts ≡ front ++ (last ∷ [])

last_of : (part : Bytes) (parts : List Bytes) → All IsName (part ∷ parts) → EndsIn (part ∷ parts)
last_of part [] all = record {
  front = [];
  last = part;
  front_names = tt;
  last_name = all.0;
  put_together = refl;
}
last_of part (next ∷ parts) all =
    let more = last_of next parts all.1 in
    record {
      front = part ∷ more.front;
      last = more.last;
      front_names = (all.0, more.front_names);
      last_name = more.last_name;
      put_together = ap (λ (x : List Bytes). part ∷ x) more.put_together;
    }

renamed_below :
    (pool old name : Bytes) (part : Bytes) (parts : List Bytes)
    → IsName pool
    → IsName name
    → All IsName (part ∷ parts)
    → old ≡ root pool ++ below (part ∷ parts)
    → IsInPool pool (join_path (dir old) name)
renamed_below pool old name part parts p n all e =
    let ends = last_of part parts all in
    let text = e ∙ ap (λ x. root pool ++ below x) ends.put_together in
    record {
      parts = ends.front ++ (name ∷ []);
      are_names = All-append IsName ends.front (name ∷ []) ends.front_names (n, tt);
      is_below =
          ap (λ x. join_path (dir x) name) text
          ∙ renamed mnt_name (pool ∷ ends.front) ends.last name (mnt-IsName, (p, ends.front_names))
              ends.last_name.3 n;
    }

-- A rename stays in the pool, unless it is the pool's own directory that gets a new name.
pub renamed-IsInPool :
    (pool old name : Bytes)
    → IsName pool
    → IsName name
    → IsInPool pool old
    → (old ≡ root pool) ⊎ IsInPool pool (join_path (dir old) name)
renamed-IsInPool pool old name p n i = by_parts i.parts i.are_names i.is_below
  where
    by_parts :
        (parts : List Bytes)
        → All IsName parts
        → old ≡ root pool ++ below parts
        → (old ≡ root pool) ⊎ IsInPool pool (join_path (dir old) name)
    by_parts [] all e = inl (e ∙ append-nil (root pool))
    by_parts (part ∷ parts) all e = inr (renamed_below pool old name part parts p n all e)
