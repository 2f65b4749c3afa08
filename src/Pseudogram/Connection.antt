-- ===== src/Pseudogram/Connection.antt =====
-- app/services/pseudogram.py: the HTTP client that PseudoGramClient makes on the first request and keeps
-- until it is closed. The clients are told apart by their numbers.
use linkplease_tech_assignme.Base.{
  ℕ, zero, suc, ◌+◌, ◌≡◌, refl, String, Option, none, some, List, [], ◌∷◌, ◌==◌, length,
  if◌then◌else◌, is_empty, arith, ap, ◌&&◌,
}
use Prim.Native.Char.{code}
use linkplease_tech_assignme.Config.{Settings}

-- `text.rstrip("/")`
unfoldable pub rstrip_slashes : String → String
rstrip_slashes String.[] = String.[]
rstrip_slashes (String.◌∷◌ c s) =
    let rest = rstrip_slashes s in
    if code c == 47 && is_empty rest then String.[] else String.◌∷◌ c rest

pub record HttpClient : Type 0 where
  pub number : ℕ
  pub base_url : String
  pub timeout : ℕ
  pub api_key : String

-- `_settings` and `_client` of a PseudoGramClient, how many HTTP clients it has made, and which of them
-- it has closed.
pub record Client : Type 0 where
  pub settings : Settings
  pub client : Option HttpClient
  pub made : ℕ
  pub closed : List HttpClient

abbrev pub new_client : Settings → Client
new_client settings = record { settings = settings; client = none; made = 0; closed = [] }

unfoldable pub use_client : Client → Option HttpClient → HttpClient × Client
unfolding rstrip_slashes
use_client c none =
    let h : HttpClient = record {
      number = c.made;
      base_url = rstrip_slashes c.settings.pseudogram_base_url;
      timeout = c.settings.pseudogram_timeout_seconds;
      api_key = c.settings.pseudogram_api_key;
    } in
    (h, record c { client = some h; made = suc c.made })
use_client c (some h) = (h, c)

-- `_get_client`
unfoldable pub get_client : Client → HttpClient × Client
unfolding use_client
get_client c = use_client c c.client

unfoldable pub close : Client → Option HttpClient → Client
close c none = c
close c (some h) = record c { client = none; closed = h ∷ c.closed }

unfoldable pub aclose : Client → Client
unfolding close
aclose c = close c c.client

abbrev pub count_open : Option HttpClient → ℕ
count_open none = 0
count_open (some h) = 1

-- Every HTTP client that was made is closed, or is the one in use.
abbrev pub NoLeak : Client → Type 0
NoLeak c = length c.closed + count_open c.client ≡ c.made

get_client-NoLeak : (c : Client) → NoLeak c → NoLeak (get_client c).1
unfolding get_client use_client
get_client-NoLeak c h = by_cache c.client h
  where
    by_cache :
        (o : Option HttpClient)
        → length c.closed + count_open o ≡ c.made
        → NoLeak (use_client c o).1
    by_cache none e = omega arith
    by_cache (some x) e = h

aclose-NoLeak : (c : Client) → NoLeak c → NoLeak (aclose c)
unfolding aclose close
aclose-NoLeak c h = by_cache c.client h
  where
    by_cache :
        (o : Option HttpClient) → length c.closed + count_open o ≡ c.made → NoLeak (close c o)
    by_cache none e = h
    by_cache (some x) e = omega arith

aclose-none : (c : Client) → (aclose c).client ≡ none
unfolding aclose close
aclose-none c = by_cache c.client refl
  where
    by_cache : (o : Option HttpClient) → c.client ≡ o → (close c o).client ≡ none
    by_cache none e = e
    by_cache (some x) e = refl

-- The client after so many requests.
abbrev pub after_requests : ℕ → Client → Client
after_requests zero c = c
after_requests (suc n) c = after_requests n (get_client c).1

after_requests-NoLeak : (n : ℕ) (c : Client) → NoLeak c → NoLeak (after_requests n c)
after_requests-NoLeak zero c h = h
after_requests-NoLeak (suc n) c h = after_requests-NoLeak n (get_client c).1 (get_client-NoLeak c h)

-- Once the client is closed, after any number of requests, it has closed every HTTP client it made.
pub aclose-closes_all :
    (c : Client) (n : ℕ)
    → NoLeak c
    → let c' = aclose (after_requests n c) in length c'.closed ≡ c'.made
aclose-closes_all c n h =
    let d = after_requests n c in
    let kept = aclose-NoLeak d (after_requests-NoLeak n c h) in
    let gone = ap count_open (aclose-none d) in omega (arith, kept, gone)
