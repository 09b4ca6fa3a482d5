-- ===== src/Handshake/Cookie.antt =====
-- src/handshake/cookie.rs: stateless cookies that bind a client's address to a span of time. The
-- keyed BLAKE3 hash is another package's code, the parameter `keyed_hash`; `now` is the system clock
-- in seconds, 0 where it stands before 1970.
pub mod Window
mod Tests
use seam.Prelude.{
  ℕ, ◌-◌, ◌/◌, List, [], ◌∷◌, ◌++◌, Bool, true, false, ◌&&◌, ◌||◌, ltb, ◌==◌, if◌then◌else◌,
  replicate,
}
use seam.Prelude.Bytes.{to_le}

pub record CookieFactory : Type 0 where
  pub secret : List ℕ
  pub bucket_secs : ℕ

pub new : List ℕ → CookieFactory
new secret = record { secret = secret; bucket_secs = 30 }

pub bucket : ℕ → CookieFactory → ℕ
bucket now f = now / f.bucket_secs

-- `ct_eq`
pub bytes_eq : List ℕ → List ℕ → Bool
bytes_eq [] [] = true
bytes_eq [] (y ∷ ys) = false
bytes_eq (x ∷ xs) [] = false
bytes_eq (x ∷ xs) (y ∷ ys) = (x == y) && bytes_eq xs ys

module _ (keyed_hash : List ℕ → List ℕ → List ℕ) where
  pub compute : CookieFactory → List ℕ → ℕ → List ℕ
  compute f client_addr bucket_number = keyed_hash f.secret (client_addr ++ to_le 8 bucket_number)

  pub generate : ℕ → CookieFactory → List ℕ → List ℕ
  unfolding compute bucket
  generate now f client_addr = compute f client_addr (bucket now f)

  -- "accepting current and previous bucket"
  pub verify : ℕ → CookieFactory → (client_addr cookie : List ℕ) → Bool
  unfolding compute bucket bytes_eq
  verify now f client_addr cookie =
      let b = bucket now f in
      let cur = compute f client_addr b in
      let prev = if ltb 0 b then compute f client_addr (b - 1) else replicate 32 0 in
      bytes_eq cur cookie || bytes_eq prev cookie
