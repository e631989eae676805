-- ===== src/Paths/Batch/Holding.antt =====
-- A bucket behind the memory of the buckets that were read, and the views that stay as they are.
use ukv.Prelude.{
  ℕ, zero, suc, ◌≡◌, ◌+◌, ◌≤◌, ◌<◌, refl, sym, ap, subst, ◌∙◌, Option, none, some, List, [], ◌∷◌,
  ◌++◌, arith, length, length-append, drop, take-append_left, drop-append_length, length-drop,
  take_of_length-le, if◌then◌else◌,
}
use ukv.Types.{length_missing}
use ukv.Umem.Collections.{name_eq}
use ukv.Paths.Bucket.{Bytes, value_in_bucket, new_buffer, upsert_in_bucket, Member}
use ukv.Paths.Bucket.Upsert.{IsBucketOf, IsBucketOf-IsRead, upserted}
use ukv.Paths.Bucket.Written.{
  bucket_bytes, bucket_bytes-upserted, upsert_in_bucket-some, upsert_in_bucket_lem,
}
use ukv.Paths.Bucket.Removal.{View, content}
use ukv.Paths.Batch.{content_of}

abbrev pub Fits : Bytes → Option View → Type 0
Fits memory none = Unit {0}
Fits memory (some view) = view.begin + view.size ≤ length memory

-- The view is of a bucket, and so many bytes more can be put into it.
pub record Holds (memory : Bytes) (view : Option View) (more : ℕ) : Type 0 where
  pub members : List Member
  pub held : IsBucketOf (content_of memory view) members
  pub fits : Fits memory view
  pub room : bucket_bytes members + more < length_missing

pub Holds-count :
    (memory : Bytes) (view : Option View) {n m : ℕ}
    → n ≡ m
    → Holds memory view n
    → Holds memory view m
Holds-count memory view e h = subst (Holds memory view) e h

drop-append_left :
    {A : Type 0} (n : ℕ) (xs ys : List A) → n ≤ length xs → drop n (xs ++ ys) ≡ drop n xs ++ ys
drop-append_left zero xs ys h = refl
drop-append_left (suc n) [] ys h = absurd (omega arith)
drop-append_left (suc n) (x ∷ xs) ys h = drop-append_left n xs ys (omega arith)

-- Bytes that are written behind the memory leave its views as they are.
pub content-append :
    (memory more : Bytes) (view : Option View)
    → Fits memory view
    → content_of (memory ++ more) view ≡ content_of memory view
content-append memory more none h = refl
content-append memory more (some view) h =
    rw (drop-append_left view.begin memory more (omega arith)) (
      ap (λ b. some b)
        (take-append_left view.size (drop view.begin memory) more
          (omega (arith, length-drop view.begin memory))))

Fits-append :
    (memory more : Bytes) (view : Option View) → Fits memory view → Fits (memory ++ more) view
Fits-append memory more none h = tt
Fits-append memory more (some view) h = omega (arith, length-append memory more)

pub content-written :
    (memory written : Bytes)
    → content (memory ++ written) (record { begin = length memory; size = length written })
      ≡ written
content-written memory written =
    rw (drop-append_length (length memory) memory written refl)
      (take_of_length-le (length written) written (omega arith))

pub Holds-append :
    (memory more : Bytes) (view : Option View) (cost n : ℕ)
    → Holds memory view (cost + n)
    → Holds (memory ++ more) view n
Holds-append memory more view cost n h = record {
  members = h.members;
  held = subst (λ v. IsBucketOf v h.members) (sym (content-append memory more view h.fits)) h.held;
  fits = Fits-append memory more view h.fits;
  room = omega (arith, h.room);
}

-- What an upsert adds to a bucket, at most.
abbrev pub cost : Bytes → Bytes → ℕ
cost path bytes = 8 + length path + length bytes

-- What the bucket behind the memory holds after an upsert.
module _ (memory : Bytes) (view : Option View) (path bytes : Bytes) (n : ℕ)
    (h : Holds memory view (cost path bytes + n)) where
  abbrev pub written : Bytes
  written = new_buffer (content_of memory view) path bytes

  abbrev pub new_view : View
  new_view = record { begin = length memory; size = length written }

  short : bucket_bytes (upserted path bytes h.members) < length_missing
  short = omega (arith, h.room, (bucket_bytes-upserted path bytes h.members).0)

  pub upserted-some : upsert_in_bucket (content_of memory view) path bytes ≡ some written
  upserted-some =
      upsert_in_bucket-some (content_of memory view) h.members
        (IsBucketOf-IsRead (content_of memory view) h.members h.held) path bytes short

  pub upserted-Holds : Holds (memory ++ written) (some new_view) n
  upserted-Holds = record {
    members = upserted path bytes h.members;
    held =
        subst (λ b. IsBucketOf b (upserted path bytes h.members))
          (upserted-some ∙ ap (λ b. some b) (sym (content-written memory written)))
          (upsert_in_bucket_lem (content_of memory view) h.members path bytes path h.held short).0;
    fits = omega (arith, length-append memory written);
    room = omega (arith, h.room, (bucket_bytes-upserted path bytes h.members).0);
  }

  pub upserted-value :
      (p : Bytes)
      → value_in_bucket (some (content (memory ++ written) new_view)) p
        ≡ (if name_eq path p then some bytes else value_in_bucket (content_of memory view) p)
  upserted-value p =
      ap (λ b. value_in_bucket b p)
        (ap (λ b. some b) (content-written memory written) ∙ sym upserted-some)
      ∙ (upsert_in_bucket_lem (content_of memory view) h.members path bytes p h.held short).2
