-- ===== src/Store/Laws.antt =====
-- Files as main.cpp creates them: a new file has the written bytes, and no other file changes.
use c_dedup.Base.{
  ℕ, ◌+◌, ◌-◌, ◌≡◌, ◌≤◌, refl, none, some, [], arith, ◌==◌, if◌then◌else◌, length, Bytes, find,
  find-assign, length-assign, write_at, write_at_end, value_or, nat_eq, take_of_length-le,
  append-nil, find,
}
use c_dedup.Store.{Files, put_file, from_buffer}

pub from_buffer_full : (len : ℕ) (buf : Bytes) → len ≡ length buf → from_buffer len buf ≡ buf
unfolding from_buffer
from_buffer_full len buf h =
    let full : len - length buf ≡ 0 = omega arith in
    rw (take_of_length-le len buf (omega arith), full, append-nil)

pub find-put_file :
    (n k : ℕ) (new : Bytes) (files : Files)
    → find n files ≡ none
    → find k (put_file n new files) ≡ (if n == k then some new else find k files)
unfolding put_file
find-put_file n k new files h = rw (h, write_at_end 0 new [] refl) (find-assign n k new files)

pub length-put_file :
    (n : ℕ) (new : Bytes) (files : Files)
    → find n files ≡ none
    → length (put_file n new files) ≡ length files + 1
unfolding put_file
length-put_file n new files h =
    ground (arith, length-assign n (write_at 0 new (value_or (find n files) [])) files)

pub length-put_file-le :
    (n : ℕ) (new : Bytes) (files : Files) → length files ≤ length (put_file n new files)
unfolding put_file
length-put_file-le n new files =
    ground (arith, length-assign n (write_at 0 new (value_or (find n files) [])) files)
