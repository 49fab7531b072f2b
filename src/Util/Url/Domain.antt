-- ===== src/Util/Url/Domain.antt =====
-- What `url_domain` finds: positions inside the text, and the host of a URL of the usual form.
use aduana.Common.{
  ℕ, suc, ◌+◌, ◌-◌, ◌≡◌, ◌≢◌, ◌∙◌, refl, ap, arith, Bool, true, false, List, [], ◌∷◌, ◌++◌,
  append_assoc, append-nil, Option, none, some, length, All, length-append,
}
use aduana.Util.Url.{
  Scan, go, scan_colon, scan_char, scan, after_scheme, unscanned, last_before, url_domain,
}

-- A character that does not end or divide the host part.
abbrev pub IsPlain : ℕ → Type 0
IsPlain c = (c ≢ b':') × (c ≢ b'@') × (c ≢ b'/')

scan_plain :
    (xs rest : List ℕ) (i : ℕ) (s : Scan)
    → All IsPlain xs
    → scan (xs ++ rest) i s ≡ scan rest (i + length xs) s
unfolding scan scan_char
scan_plain [] rest i s h = ap (λ (j : ℕ). scan rest j s) (omega arith)
scan_plain (x ∷ xs) rest i s h =
    ground
      (arith, scan_plain xs rest (i + 1) s h.1, ap (λ (j : ℕ). scan rest j s) (moved i (length xs)))
  where
    moved : (i n : ℕ) → i + 1 + n ≡ i + suc n
    moved i n = omega arith

-- "http://" or "https://"
abbrev pub scheme : Bool → List ℕ
scheme false = b'h' ∷ b't' ∷ b't' ∷ b'p' ∷ b':' ∷ b'/' ∷ b'/' ∷ []
scheme true = b'h' ∷ b't' ∷ b't' ∷ b'p' ∷ b's' ∷ b':' ∷ b'/' ∷ b'/' ∷ []

after_scheme_lem :
    (secure : Bool) (r : List ℕ)
    → after_scheme (scheme secure ++ r) ≡ some (r, length (scheme secure))
unfolding after_scheme
after_scheme_lem false r = refl
after_scheme_lem true r = refl

-- "user:password@" or nothing
abbrev pub userinfo : Option (List ℕ × List ℕ) → List ℕ
userinfo none = []
userinfo (some (user, password)) = user ++ (b':' ∷ (password ++ (b'@' ∷ [])))

-- ":port" or nothing
abbrev pub port_part : Option (List ℕ) → List ℕ
port_part none = []
port_part (some port) = b':' ∷ port

-- "/..." or nothing
abbrev pub path_part : Option (List ℕ) → List ℕ
path_part none = []
path_part (some path) = b'/' ∷ path

abbrev pub OptionAll : {A : Type 0} → (A → Type 0) → Option A → Type 0
OptionAll P none = Unit {0}
OptionAll P (some a) = P a

scan_path : (path : Option (List ℕ)) (i : ℕ) (s : Scan) → scan (path_part path) i s ≡ some (s, i)
unfolding scan scan_char
scan_path none i s = refl
scan_path (some p) i s = refl

-- How a scan of a host, a port and a path that starts at `i` ends: the position behind the host is
-- the first colon that `colon` reads, or the end.
abbrev Ends : (Scan → Option ℕ) → Option ℕ → ℕ → List ℕ → Option (Scan × ℕ) → Type 0
Ends colon at i host r =
    (o : Scan × ℕ) × (r ≡ some o)
    × (o.0.at ≡ at)
    × (last_before (colon o.0) o.1 ≡ i + length host - 1)

scan_at_colon :
    (j : ℕ) (r : List ℕ) (s s' : Scan)
    → scan_colon j s ≡ go s'
    → scan (b':' ∷ r) j s ≡ scan r (j + 1) s'
unfolding scan scan_char
scan_at_colon j r s s' e = ground arith

module _ (host : List ℕ) (path : Option (List ℕ)) (i : ℕ) (h : All IsPlain host) where
  -- Without a port.
  scan_host : (s : Scan) → scan (host ++ path_part path) i s ≡ some (s, i + length host)
  scan_host s = scan_plain host _ i s h ∙ scan_path path _ s

  -- With a port, where the colon before it is taken.
  scan_host_port :
      (port : List ℕ) (s s' : Scan)
      → All IsPlain port
      → scan_colon (i + length host) s ≡ go s'
      → scan (host ++ (b':' ∷ (port ++ path_part path))) i s
        ≡ some (s', i + length host + 1 + length port)
  scan_host_port port s s' hp e =
      scan_plain host _ i s h
      ∙ scan_at_colon (i + length host) (port ++ path_part path) s s' e
      ∙ scan_plain port _ _ s' hp
      ∙ scan_path path _ s'

  no_user_tail :
      (port : Option (List ℕ))
      → OptionAll (All IsPlain) port
      → Ends
          (λ s. s.colon2)
          none
          i
          host
          (scan (host ++ (port_part port ++ path_part path)) i unscanned)
  unfolding unscanned scan_colon
  no_user_tail none hp = (_, scan_host unscanned, refl, refl)
  no_user_tail (some p) hp = (_, scan_host_port p unscanned _ hp refl, refl, refl)

  user_tail :
      (port : Option (List ℕ)) (c a : ℕ)
      → OptionAll (All IsPlain) port
      → Ends
          (λ s. s.colon3)
          (some a)
          i
          host
          (scan
            (host ++ (port_part port ++ path_part path))
            i
            (record { n_colon = 2; colon2 = some c; colon3 = none; at = some a }))
  unfolding scan_colon
  user_tail none c a hp = (_, scan_host _, refl, refl)
  user_tail (some p) c a hp = (_, scan_host_port p _ _ hp refl, refl, refl)

scan_user :
    (user password rest : List ℕ) (k : ℕ)
    → All IsPlain user
    → All IsPlain password
    → scan (user ++ (b':' ∷ (password ++ (b'@' ∷ rest)))) k unscanned
      ≡ scan rest (k + length user + 1 + length password + 1) (record {
        n_colon = 2;
        colon2 = some (k + length user);
        colon3 = none;
        at = some (k + length user + 1 + length password);
      })
unfolding unscanned scan_colon
scan_user user password rest k hu hp =
    scan_plain user _ k unscanned hu
    ∙ scan_at_colon (k + length user) _ unscanned _ refl
    ∙ scan_plain password _ _ _ hp
    ∙ at_sign (k + length user) (k + length user + 1 + length password)
  where
    at_sign :
        (c j : ℕ)
        → scan (b'@' ∷ rest) j (record { n_colon = 2; colon2 = some c; colon3 = none; at = none })
          ≡ scan rest (j + 1) (record { n_colon = 2; colon2 = some c; colon3 = none; at = some j })
    at_sign c j = unfold scan scan_char in refl

userinfo_assoc :
    (user password rest : List ℕ)
    → (user ++ (b':' ∷ (password ++ (b'@' ∷ [])))) ++ rest
      ≡ user ++ (b':' ∷ (password ++ (b'@' ∷ rest)))
userinfo_assoc user password rest = rw (append_assoc user, append_assoc password)

userinfo_length :
    (s user password : List ℕ)
    → length (s ++ (user ++ (b':' ∷ (password ++ (b'@' ∷ [])))))
      ≡ length s + length user + 1 + length password + 1
userinfo_length s user password =
    rw (length-append s, length-append user, length-append password) (omega arith)

-- A URL with a user and a password or with none of them, a host, perhaps a port and perhaps a path.
abbrev pub url_of :
    Bool → Option (List ℕ × List ℕ) → List ℕ → Option (List ℕ) → Option (List ℕ) → List ℕ
url_of secure user host port path =
    scheme secure ++ (userinfo user ++ (host ++ (port_part port ++ path_part path)))

-- `url_domain` finds the host of such a URL: its first position, and its last one.
pub url_domain-url_of :
    (secure : Bool) (user : Option (List ℕ × List ℕ)) (host : List ℕ) (port path : Option (List ℕ))
    → OptionAll (λ u. All IsPlain u.0 × All IsPlain u.1) user
    → All IsPlain host
    → OptionAll (All IsPlain) port
    → url_domain (url_of secure user host port path)
      ≡ some (
        length (scheme secure ++ userinfo user),
        length (scheme secure ++ userinfo user) + length host - 1,
      )
unfolding url_domain
url_domain-url_of secure none host port path hu h hp =
    let (o, e, a, l) = no_user_tail host path (length (scheme secure)) h port hp in
    rw (after_scheme_lem secure _, e, a, append-nil, l)
url_domain-url_of secure (some (user, password)) host port path hu h hp =
    let k = length (scheme secure) in
    let (o, e, a, l) =
      user_tail host path (k + length user + 1 + length password + 1) h port (k + length user)
        (k + length user + 1 + length password) hp in
    rw (
      userinfo_assoc user password,
      after_scheme_lem secure _,
      scan_user user password _ k hu.0 hu.1,
      e,
      a,
      l,
      userinfo_length (scheme secure) user password,
    )

-- With a user but no password before the host, the port is taken for a part of the domain.
url_domain_user_only :
    (secure : Bool) (user host port : List ℕ) (path : Option (List ℕ))
    → All IsPlain user
    → All IsPlain host
    → All IsPlain port
    → url_domain (scheme secure ++ (user ++ (b'@' ∷ (host ++ (b':' ∷ (port ++ path_part path))))))
      ≡ some (
        length (scheme secure) + length user + 1,
        length (scheme secure) + length user + 1 + length (host ++ (b':' ∷ port)) - 1,
      )
unfolding url_domain
url_domain_user_only secure user host port path hu h hp =
    rw
      (
        after_scheme_lem secure _,
        scan_plain user (b'@' ∷ (host ++ (b':' ∷ (port ++ path_part path))))
            (length (scheme secure)) unscanned hu,
        at_sign (length (scheme secure) + length user) (host ++ (b':' ∷ (port ++ path_part path))),
        scan_host_port host path (length (scheme secure) + length user + 1) h port _ _ hp
            (second_colon (length (scheme secure) + length user) _),
        length-append host (b':' ∷ port),
      )
      (ground arith)
  where
    at_sign :
        (j : ℕ) (r : List ℕ)
        → scan (b'@' ∷ r) j unscanned
          ≡ scan r (j + 1) (record { n_colon = 1; colon2 = none; colon3 = none; at = some j })
    at_sign j r = unfold scan scan_char unscanned in refl

    second_colon :
        (a i : ℕ)
        → scan_colon i (record { n_colon = 1; colon2 = none; colon3 = none; at = some a })
          ≡ go (record { n_colon = 2; colon2 = some i; colon3 = none; at = some a })
    second_colon a i = unfold scan_colon in refl
