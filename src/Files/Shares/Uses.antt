-- ===== src/Files/Shares/Uses.antt =====
-- How often a share link of internal/storage/linux.go is good for.
use kilasos.Common.{
  ℕ, suc, ◌+◌, ◌-◌, ◌^◌, ◌≤◌, ◌<◌, min, ◌≡◌, ◌≢◌, refl, ap, ◌∙◌, Bool, true, false, not, ◌&&◌, ◌||◌,
  Option, none, some, List, [], ◌∷◌, find, find_at_end, ◌++◌, update_first, length, ltb, ◌==◌,
  ==_iff, bytes_eq, nat_eq, if◌then◌else◌, Bool-cases, if_case, option_case, All, inl, inr, arith,
}
use native.Mathlib.Decide.{dec_lt}
use kilasos.Common.Int.{ℤ, pos, ltb_ℤ, wrap64}
use kilasos.Auth.Crypto.{Bytes}
use kilasos.Auth.Password.Roundtrip.{length-hex}
use kilasos.Files.Paths.{has_dots, clean}
use kilasos.Files.Shares.{
  ShareLink, ShareFile, create_share_link, new_link, links_or_none, holds, Shared, ok, failed,
  expired, used_up, Env, unix, load_share_links, is_expired, is_used_up, use_once,
  resolve_share_token,
}

abbrev pub has_token : Bytes → ShareLink → Bool
has_token token l = l.token == token

-- The first link with the token, which is the one that counts.
abbrev pub link_of : Bytes → List ShareLink → Option ShareLink
link_of token links = find (has_token token) links

link_of_used_other :
    (token other : Bytes) (links : List ShareLink)
    → other ≢ token
    → link_of token (update_first (has_token other) use_once links) ≡ link_of token links
unfolding find update_first use_once
link_of_used_other token other [] apart = refl
link_of_used_other token other (l ∷ links) apart =
    ground (
      arith,
      ==_iff l.token token,
      ==_iff l.token other,
      link_of_used_other token other links apart,
    )

link_of_used :
    (token : Bytes) (links : List ShareLink) (l : ShareLink)
    → link_of token links ≡ some l
    → link_of token (update_first (has_token token) use_once links) ≡ some (use_once l)
unfolding find update_first use_once
link_of_used token [] l h = ground arith
link_of_used token (m ∷ links) l h = ground (arith, link_of_used token links l)

use_once_small :
    (l : ShareLink) (k : ℕ) → l.used ≡ pos k → k + 1 < 2 ^ 63 → (use_once l).used ≡ pos (k + 1)
unfolding use_once wrap64
use_once_small l k h small = rw h (ground arith)

abbrev pub Call : Type 0
Call = Env × Bytes

-- `l.ExpiresAt > 0 && time.Now().Unix() > l.ExpiresAt`, of the field.
abbrev pub is_past : ℤ → Env → Bool
is_past expires_at e = ltb_ℤ (pos 0) expires_at && ltb_ℤ expires_at (pos (unix e))

-- How many of the calls ask for the token before the link has expired.
pub asked : Bytes → ℤ → List Call → ℕ
asked token expires_at [] = 0
asked token expires_at ((e, other) ∷ calls) =
    (if other == token && not (is_past expires_at e) then 1 else 0) + asked token expires_at calls

abbrev is_ok : Shared ShareLink → Bool
is_ok (ok l) = true
is_ok (failed err) = false

-- How many of the calls are answered with the link of the token, from the file `s` on.
pub served : Bytes → List Call → ShareFile → ℕ
served token [] s = 0
served token ((e, other) ∷ calls) s =
    let answer = resolve_share_token e other s in
    (if other == token && is_ok answer.1 then 1 else 0) + served token calls answer.0

-- A link that `k` of `m` uses were made of.
pub record IsLimited (token : Bytes) (m k : ℕ) (expires_at : ℤ) (links : List ShareLink)
    : Type 0 where
  pub link : ShareLink
  pub found : link_of token links ≡ some link
  pub limit : link.max_uses ≡ pos m
  pub uses : link.used ≡ pos k
  pub ends : link.expires_at ≡ expires_at

-- What a call leaves in the file.
data Leaves (token : Bytes) (links : List ShareLink) : ShareFile × Shared ShareLink → Type 0 where
  same : (a : ShareFile × Shared ShareLink) → a.0 ≡ holds links → Leaves token links a
  counted :
      (a : ShareFile × Shared ShareLink)
      → a.0 ≡ holds (update_first (has_token token) use_once links)
      → Leaves token links a

resolve_share_token-Leaves :
    (e : Env) (token : Bytes) (links : List ShareLink)
    → Leaves token links (resolve_share_token e token (holds links))
unfolding resolve_share_token
resolve_share_token-Leaves e token links =
    if_case (Leaves token links) (token == [] || ltb (length token) 16) _ _ (λ _. same _ refl)
      (λ _.
        option_case (Leaves token links) (link_of token links) _ _ (λ _. same _ refl)
          (λ l _.
            if_case (Leaves token links) (is_expired (unix e) l) _ _ (λ _. same _ refl)
              (λ _.
                if_case (Leaves token links) (is_used_up l) _ _ (λ _. same _ refl)
                  (λ _. elim (Bool-cases e.writable) [
                    | inl w ↦ counted _ (rw w)
                    | inr w ↦ same _ (rw w)
                  ]))))

module _ (token : Bytes) (m : ℕ) (expires_at : ℤ) (long : 16 ≤ length token) (some_use : 0 < m)
    (fits : m < 2 ^ 63) where
  not_short : (token == [] || ltb (length token) 16) ≡ false
  not_short = ground (arith, ==_iff token [])

  -- A call for the token while it has uses left.
  served_use :
      (e : Env) (k : ℕ) (links : List ShareLink) (l : IsLimited token m k expires_at links)
      → e.writable ≡ true
      → is_past expires_at e ≡ false
      → k < m
      → resolve_share_token e token (holds links)
        ≡ (holds (update_first (has_token token) use_once links), ok (use_once l.link))
  unfolding resolve_share_token
  served_use e k links l written live left = rw (not_short, l.found) (ground arith)

  refused_past :
      (e : Env) (k : ℕ) (links : List ShareLink) (l : IsLimited token m k expires_at links)
      → is_past expires_at e ≡ true
      → resolve_share_token e token (holds links) ≡ (holds links, failed expired)
  unfolding resolve_share_token
  refused_past e k links l past = rw (not_short, l.found) (ground arith)

  refused_used_up :
      (e : Env) (k : ℕ) (links : List ShareLink) (l : IsLimited token m k expires_at links)
      → is_past expires_at e ≡ false
      → m ≤ k
      → resolve_share_token e token (holds links) ≡ (holds links, failed used_up)
  unfolding resolve_share_token
  refused_used_up e k links l live full = rw (not_short, l.found) (ground arith)

  -- A use is counted in the link.
  IsLimited-use :
      (k : ℕ) (links : List ShareLink)
      → k < m
      → IsLimited token m k expires_at links
      → IsLimited token m (suc k) expires_at (update_first (has_token token) use_once links)
  IsLimited-use k links left l = record {
    link = use_once l.link;
    found = link_of_used token links l.link l.found;
    limit = unfold use_once in l.limit;
    uses = use_once_small l.link k l.uses (omega arith) ∙ ap pos (omega arith);
    ends = unfold use_once in l.ends;
  }

  -- A call for another token leaves the link as it is.
  other_call :
      (e : Env) (other : Bytes) (k : ℕ) (links : List ShareLink)
      → other ≢ token
      → IsLimited token m k expires_at links
      → (links' : List ShareLink) × ((resolve_share_token e other (holds links)).0 ≡ holds links')
        × IsLimited token m k expires_at links'
  other_call e other k links apart l = elim (resolve_share_token-Leaves e other links) [
    | same a h ↦ (links, h, l)
    | counted a h ↦ (
      update_first (has_token other) use_once links,
      h,
      record {
        link = l.link;
        found = link_of_used_other token other links apart ∙ l.found;
        limit = l.limit;
        uses = l.uses;
        ends = l.ends;
      },
    )
  ]

  -- With every call writing the file, a link of `m` uses is given out to the calls that ask for its
  -- token before it has expired, until its uses are spent, and to no other call.
  pub served_lem :
      (calls : List Call) (k : ℕ) (links : List ShareLink)
      → All (λ (call : Call). call.0.writable ≡ true) calls
      → k ≤ m
      → IsLimited token m k expires_at links
      → served token calls (holds links) ≡ min (asked token expires_at calls) (m - k)
  unfolding served asked
  served_lem [] k links written le l = omega arith
  served_lem ((e, other) ∷ calls) k links written le l = elim (Bool-cases (other == token)) [
    | inl own ↦
        let name = (==_iff other token).0 own in
        elim (Bool-cases (is_past expires_at e)) [
          | inl past ↦
              rw (own, name, refused_past e k links l past, past)
                (omega (arith, served_lem calls k links written.1 le l))
          | inr live ↦ elim (dec_lt k m) [
            | yes left ↦
                rw (own, name, served_use e k links l written.0 live left, live)
                  (omega (
                    arith,
                    served_lem calls (suc k) _ written.1 left (IsLimited-use k links left l),
                  ))
            | no full ↦
                rw (own, name, refused_used_up e k links l live (omega arith), live)
                  (omega (arith, served_lem calls k links written.1 le l))
          ]
        ]
    | inr apart ↦
        let (links', after, l') =
          other_call e other k links (ground (arith, ==_iff other token)) l in
        rw (apart, after) (omega (arith, served_lem calls k links' written.1 le l'))
  ]

-- A link that is made is the new one, at the end of the file.
made_link :
    (e : Env) (path : Bytes) (expires_in max_uses : ℤ) (s : ShareFile) (link : ShareLink)
    → (create_share_link e path expires_in max_uses s).1 ≡ ok link
    → e.writable ≡ true
    → (link ≡ new_link e path expires_in max_uses)
      × ((create_share_link e path expires_in max_uses s).0
          ≡ holds (links_or_none (load_share_links s) ++ (link ∷ [])))
unfolding create_share_link
made_link e path expires_in max_uses s link made written =
    elim (Bool-cases (has_dots (clean path))) [
      | inl dots ↦ absurd (ground (arith, dots, made))
      | inr plain ↦ (ground (arith, plain, made), rw (plain, written) (ground (arith, plain, made)))
    ]

-- A link that is made for `m` uses, with a token of 32 fresh bytes that no other link has, is given
-- out to exactly as many of the later calls as ask for its token before it expires, up to `m` of
-- them, whatever else is asked for in between. (Every call can write the file.)
pub served-create_share_link :
    (e : Env) (path : Bytes) (expires_in : ℤ) (m : ℕ) (s : ShareFile) (calls : List Call)
    (link : ShareLink)
    → (create_share_link e path expires_in (pos m) s).1 ≡ ok link
    → e.writable ≡ true
    → 8 ≤ length e.token_bytes
    → link_of link.token (links_or_none (load_share_links s)) ≡ none
    → 0 < m
    → m < 2 ^ 63
    → All (λ (call : Call). call.0.writable ≡ true) calls
    → served link.token calls (create_share_link e path expires_in (pos m) s).0
      ≡ min (asked link.token link.expires_at calls) m
served-create_share_link e path expires_in m s calls link made written long fresh some_use fits
      all =
    let (new, after) = made_link e path expires_in (pos m) s link made written in
    rw after (
      served_lem link.token m link.expires_at (rw new (omega (arith, length-hex e.token_bytes)))
        some_use fits calls 0 _ all (omega arith)
        (record {
          link = link;
          found =
              find_at_end (has_token link.token) (links_or_none (load_share_links s)) link fresh
                ((==_iff link.token link.token).1 refl);
          limit = rw new refl;
          uses = rw new refl;
          ends = refl;
        })
      ∙ ap (min (asked link.token link.expires_at calls)) (omega arith))
