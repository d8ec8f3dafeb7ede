-- ===== src/Pages/Cache.antt =====
-- The cached front page (server/src/controller/StaticController.hpp) over many requests.
use canchat.Base.{
  ◌<◌, ℕ, ◌+◌, ◌%◌, ◌^◌, suc_uint64, String, str_append, Option, none, some, List, [], ◌∷◌, ◌++◌,
  map, ◌≡◌, refl, arith, All, length,
}
use canchat.Base.Exec.{returns, for_each_collect}
use canchat.Pages.{
  html, Files, Texts, Site, Page, page, not_found, root, index_text, count_front_page,
}

abbrev pub index_path : Texts → String
index_path texts = str_append texts.front_path "/index.html"

abbrev pub visits : Site → ℕ
visits s = s.statistics.counters.event_front_page_loaded

-- A file that cannot be read.
abbrev pub Unreadable : Texts → Files → Type 0
Unreadable texts files = files (index_path texts) ≡ none

-- What a run of requests leaves, as to the page and the count.
pub record Visited (texts : Texts) (fs : List Files) (base n : ℕ) (cache : Option String)
    (pages : List Page) (s : Site) : Type 0 where
  pub after : Site
  pub run : for_each_collect (root texts) fs s ≡ (returns pages, after)
  pub cached : after.index_cache ≡ cache
  pub counted : visits after ≡ (base + (n + length fs)) % 2 ^ 64

abbrev pub fresh : String → Page
fresh text = page "text/html" text

-- One request and the rest.
Visited-cons :
    (texts : Texts) (f : Files) (fs : List Files) (base n : ℕ) (cache : Option String) (p : Page)
    (pages : List Page) (s s' : Site)
    → root texts f s ≡ (returns p, s')
    → Visited texts fs base (n + 1) cache pages s'
    → Visited texts (f ∷ fs) base n cache (p ∷ pages) s
Visited-cons texts f fs base n cache p pages s s' e v = record {
  after = v.after;
  run = rw (e, v.run);
  cached = v.cached;
  counted = omega (arith, v.counted);
}

count_lem :
    (base n : ℕ) (s : Site)
    → visits s ≡ (base + n) % 2 ^ 64
    → visits (count_front_page s) ≡ (base + (n + 1)) % 2 ^ 64
unfolding count_front_page suc_uint64
count_lem base n s e = omega (arith, e)

module _ (texts : Texts) where
  root_hit :
      (f : Files) (text : String) (s : Site)
      → s.index_cache ≡ some text
      → root texts f s ≡ (returns (fresh text), count_front_page s)
  unfolding root index_text count_front_page
  root_hit f text s e = rw e

  -- The world after a request that found such a file, or none.
  abbrev loaded : Option String → Site → Site
  loaded o s = record (count_front_page s) { index_cache = o }

  root_load :
      (f : Files) (o : Option String) (s : Site)
      → s.index_cache ≡ none
      → f (index_path texts) ≡ o
      → root texts f s ≡ (returns (html o), loaded o s)
  unfolding root index_text count_front_page
  root_load f o s e found = rw (e, found)

  hits :
      (fs : List Files) (text : String) (base n : ℕ) (s : Site)
      → s.index_cache ≡ some text
      → visits s ≡ (base + n) % 2 ^ 64
      → Visited texts fs base n (some text) (map (λ _. fresh text) fs) s
  hits [] text base n s e c = record {
    after = s;
    run = refl;
    cached = e;
    counted = omega (arith, c);
  }
  hits (f ∷ fs) text base n s e c =
      Visited-cons texts f fs base n (some text) (fresh text) (map (λ _. fresh text) fs) s
        (count_front_page s) (root_hit f text s e)
        (hits fs text base (n + 1) (count_front_page s) (unfold count_front_page in e)
          (count_lem base n s c))

  misses :
      (before after : List Files) (f : Files) (text : String) (base n : ℕ) (s : Site)
      → s.index_cache ≡ none
      → All (Unreadable texts) before
      → f (index_path texts) ≡ some text
      → visits s ≡ (base + n) % 2 ^ 64
      → Visited texts
          (before ++ f ∷ after)
          base
          n
          (some text)
          (map (λ _. not_found "File Not Found:(") before ++ map (λ _. fresh text) (f ∷ after))
          s
  misses [] after f text base n s e u found c =
      Visited-cons texts f after base n (some text) (fresh text) (map (λ _. fresh text) after) s
        (loaded (some text) s) (root_load f (some text) s e found)
        (hits after text base (n + 1) (loaded (some text) s) refl (count_lem base n s c))
  misses (g ∷ before) after f text base n s e (u, us) found c =
      Visited-cons texts g (before ++ f ∷ after) base n (some text) (not_found "File Not Found:(")
        (map (λ _. not_found "File Not Found:(") before ++ map (λ _. fresh text) (f ∷ after)) s
        (loaded none s) (root_load g none s e u)
        (misses before after f text base (n + 1) (loaded none s) refl us found
          (count_lem base n s c))

-- Requests for the front page, from a server that has not loaded it: as long as the file cannot be
-- read each gets a 404, from the first request that finds it on each gets the text that this one
-- found, whatever the file holds later, and every request is counted, refused or not, modulo 2^64.
pub root-Visited :
    (texts : Texts) (before after : List Files) (f : Files) (text : String) (s : Site)
    → s.index_cache ≡ none
    → visits s < 2 ^ 64
    → All (Unreadable texts) before
    → f (index_path texts) ≡ some text
    → Visited texts
        (before ++ f ∷ after)
        (visits s)
        0
        (some text)
        (map (λ _. not_found "File Not Found:(") before ++ map (λ _. fresh text) (f ∷ after))
        s
root-Visited texts before after f text s e small u found =
    misses texts before after f text (visits s) 0 s e u found (omega arith)
