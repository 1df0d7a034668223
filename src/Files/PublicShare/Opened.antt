-- ===== src/Files/PublicShare/Opened.antt =====
-- What publicShareHandler of internal/api/router.go opens.
use kilasos.Common.{
  ◌≡◌, refl, sym, ap, ◌∙◌, true, false, ◌||◌, some, List, length, ltb, find, update_first, nat_eq,
  Bool-cases, Option-cases, inl, inr, ◌⊎◌, arith,
}
use kilasos.Auth.Crypto.{Bytes}
use kilasos.Api.Limiter.{allow}
use kilasos.Files.Paths.{mnt, has_prefix, has_dots, clean}
use kilasos.Files.Shares.{
  ShareLink, ShareFile, missing, unreadable, holds, ShareError, Shared, ok, failed, Env, unix,
  save_share_links, is_expired, is_used_up, use_once, resolve_share_token,
}
use kilasos.Files.Shares.Uses.{has_token, link_of}
use kilasos.Files.PublicShare.{
  Visit, Public, client_ip, has_separator, serve_link, serve_answer, serve_token,
  public_share_handler,
}

-- A link that a token is good for, and what its use leaves in the file.
pub record IsGranted (e : Env) (token : Bytes) (before after : ShareFile) (link : ShareLink)
    : Type 0 where
  pub links : List ShareLink
  pub in_file : before ≡ holds links
  pub long : ltb (length token) 16 ≡ false
  pub found : link_of token links ≡ some link
  pub not_expired : is_expired (unix e) link ≡ false
  pub not_used_up : is_used_up link ≡ false
  pub counted : after ≡ save_share_links e (update_first (has_token token) use_once links) before

granted :
    (e : Env) (token : Bytes) (links : List ShareLink) (link old : ShareLink)
    → link_of token links ≡ some old
    → (resolve_share_token e token (holds links)).1 ≡ ok link
    → (ltb (length token) 16 ≡ false)
      × (is_expired (unix e) old ≡ false)
      × (is_used_up old ≡ false)
      × ((resolve_share_token e token (holds links)).0
          ≡ save_share_links e (update_first (has_token token) use_once links) (holds links))
      × (link ≡ use_once old)
unfolding resolve_share_token
granted e token links link old found h =
    let h' = rw found at h in
    (
      ground (arith, h'),
      ground (arith, h'),
      ground (arith, h'),
      rw found (ground (arith, h')),
      ground (arith, h'),
    )

resolved :
    (e : Env) (token : Bytes) (s : ShareFile) (link : ShareLink)
    → (resolve_share_token e token s).1 ≡ ok link
    → (old : ShareLink) × IsGranted e token s (resolve_share_token e token s).0 old
      × (link ≡ use_once old)
unfolding resolve_share_token find
resolved e token missing link h = absurd (ground arith)
resolved e token unreadable link h = absurd (ground arith)
resolved e token (holds links) link h = elim (Option-cases (link_of token links)) [
  | inl absent ↦ absurd (ground (arith, absent, h))
  | inr (old, found) ↦
      let facts = granted e token links link old found h in
      (
        old,
        record {
          links = links;
          in_file = refl;
          long = facts.0;
          found = found;
          not_expired = facts.1;
          not_used_up = facts.2;
          counted = facts.3;
        },
        facts.4,
      )
]

Shared-cases :
    (a : Shared ShareLink)
    → ((link : ShareLink) × (a ≡ ok link)) ⊎ ((err : ShareError) × (a ≡ failed err))
Shared-cases (ok link) = inl (link, refl)
Shared-cases (failed err) = inr (err, refl)

serve_link-opens :
    (v : Visit) (link : ShareLink) (p : Public) (path : Bytes)
    → (serve_link v link p).path ≡ some path
    → (path ≡ clean link.path)
      × (has_dots path ≡ false)
      × (has_prefix mnt path ≡ true)
      × ((serve_link v link p).after.shares ≡ p.shares)
unfolding serve_link
serve_link-opens v link p path h = ground arith

-- The link for whose use a path is opened.
pub record IsOpenedBy (v : Visit) (before after : ShareFile) (path : Bytes) : Type 0 where
  pub link : ShareLink
  pub granted_by : IsGranted v.env v.token before after link
  pub of_link : path ≡ clean link.path
  pub undotted : has_dots path ≡ false
  pub within : has_prefix mnt path ≡ true

serve_token-opens :
    (v : Visit) (p : Public) (path : Bytes)
    → (serve_token v p).path ≡ some path
    → IsOpenedBy v p.shares (serve_token v p).after.shares path
unfolding serve_token serve_answer use_once
serve_token-opens v p path h =
    let answer = resolve_share_token v.env v.token p.shares in
    elim (Shared-cases answer.1) [
      | inl (link, e) ↦
          let opens =
            serve_link-opens v link (record p { shares = answer.0 }) path
              (ap (λ a. (serve_answer v a (record p { shares = answer.0 })).path) (sym e) ∙ h) in
          let (old, grant, once) = resolved v.env v.token p.shares link e in
          let kept : (serve_token v p).after.shares ≡ answer.0 = rw e opens.3 in
          record {
            link = old;
            granted_by = record {
              links = grant.links;
              in_file = grant.in_file;
              long = grant.long;
              found = grant.found;
              not_expired = grant.not_expired;
              not_used_up = grant.not_used_up;
              counted = kept ∙ grant.counted;
            };
            of_link = opens.0 ∙ ap (λ (l : ShareLink). clean l.path) once;
            undotted = opens.1;
            within = opens.2;
          }
      | inr (err, e) ↦ absurd (ground (arith, rw e at h))
    ]

-- What is found out before the link is looked for.
abbrev pub IsAllowed : Visit → Public → Type 0
IsAllowed v p =
    ((allow v.now (v.text (client_ip v.remote_addr)) p.limiter).1 ≡ true)
    × (has_separator v.token ≡ false)

-- What the public route opens. The limiter lets the address through; the token is long enough and
-- has none of "/", "." and "\"; the first link with it has not expired and has uses left, one of
-- which is counted in the file, where it can be written; and the path that is opened is the link's,
-- cleaned, begins with "/mnt" and holds no "..".
pub public_share_opens :
    (v : Visit) (p : Public) (path : Bytes)
    → (public_share_handler v p).path ≡ some path
    → IsAllowed v p × IsOpenedBy v p.shares (public_share_handler v p).after.shares path
unfolding public_share_handler
public_share_opens v p path h =
    let answer = allow v.now (v.text (client_ip v.remote_addr)) p.limiter in
    elim (Bool-cases answer.1) [
      | inr refused ↦ absurd (ground (arith, rw refused at h))
      | inl allowed ↦ elim (Bool-cases (ltb (length v.token) 16 || has_separator v.token)) [
        | inl malformed ↦ absurd (ground (arith, rw (allowed, malformed) at h))
        | inr shaped ↦
            rw (allowed, shaped)
              (
                (refl, ground (arith, shaped)),
                serve_token-opens v (record p { limiter = answer.0 }) path
                    (rw (allowed, shaped) at h),
              )
      ]
    ]
