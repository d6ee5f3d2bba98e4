-- ===== src/FileUtil.antt =====
-- include/FileUtil.h and src/FileUtil.cpp: small files, read as a whole. What `open`, `fstat`, `read` and
-- `pread` answer are arguments; an errno is a number, and 0 for none. `maxSize` is not negative.
pub mod Whole
use transfer_server.Prelude.{
  ℕ, zero, suc, ◌+◌, ◌-◌, Bool, true, false, min, List, [], ◌∷◌, ◌++◌, Option, none, some,
  if◌then◌else◌, ltb, length,
}

pub data ReadOutcome : Type 0 where
  got : List ℕ → ReadOutcome
  failed : ℕ → ReadOutcome

-- What `fstat` tells.
pub record Stat : Type 0 where
  pub regular : Bool
  pub directory : Bool
  pub size : ℕ
  pub mtime : ℕ
  pub ctime : ℕ

pub data StatOutcome : Type 0 where
  told : Stat → StatOutcome
  no_stat : ℕ → StatOutcome

-- `fd_` is there or not, and `err_`.
pub record SmallFile : Type 0 where
  pub is_open : Bool
  pub err : ℕ

-- `SmallFile(filename)`, for what `open` answers: a descriptor, or an errno.
abbrev pub open_file : Option ℕ → SmallFile
open_file none = record { is_open = true; err = 0 }
open_file (some errno) = record { is_open = false; err = errno }

abbrev pub buffer_size : ℕ
buffer_size = 65536

abbrev pub eisdir : ℕ
eisdir = 21

-- What `readToString` leaves: the returned errno, and what is written through the pointers.
pub record Contents : Type 0 where
  pub err : ℕ
  pub content : List ℕ
  pub file_size : Option ℕ
  pub modify_time : Option ℕ
  pub create_time : Option ℕ

-- `read call offset n` is what the `call`-th `read` answers that asks for `n` bytes, with the file
-- offset at `offset`.
module _ (read : ℕ → ℕ → ℕ → ReadOutcome) (max_size : ℕ) where
  -- The loop of `readToString`, on fuel: the content, and the errno.
  unfoldable pub read_rest : ℕ → ℕ → ℕ → List ℕ → List ℕ × ℕ
  read_rest zero call err content = (content, err)
  read_rest (suc fuel) call err content =
      let to_read = min (max_size - length content) buffer_size in
      let next : List ℕ × ℕ = elim (read call (length content) to_read) [
        | got [] ↦ (content, err)
        | got (b ∷ bs) ↦ read_rest fuel (suc call) err (content ++ (b ∷ bs))
        | failed errno ↦ (content, errno)
      ] in
      if ltb (length content) max_size then next else (content, err)

  -- `fileSize != NULL` is `wants_size`, and so for the others.
  unfoldable pub read_to_string : SmallFile → StatOutcome → Bool → Bool → Bool → Contents → Contents
  unfolding read_rest
  read_to_string file stat wants_size wants_modify wants_create old =
      if file.is_open
      then (let cleared = record old { err = file.err; content = [] } in
          let told_of : Contents =
            if wants_size
            then (elim stat [
              | told st ↦ record {
                err = if st.regular then file.err else (if st.directory then eisdir else file.err);
                content = [];
                file_size = if st.regular then some st.size else old.file_size;
                modify_time = if wants_modify then some st.mtime else old.modify_time;
                create_time = if wants_create then some st.ctime else old.create_time;
              }
              | no_stat errno ↦ record cleared { err = errno }
            ])
            else cleared in
          let (content, err) = read_rest max_size 0 told_of.err [] in
          record told_of { content = content; err = err })
      else record old { err = file.err }

  -- `readFile(filename, maxSize, content, fileSize, modifyTime, createTime)`
  unfoldable pub read_file : Option ℕ → StatOutcome → Bool → Bool → Bool → Contents → Contents
  unfolding read_to_string
  read_file opened stat wants_size wants_modify wants_create old =
      read_to_string (open_file opened) stat wants_size wants_modify wants_create old

-- `readToBuffer`, with `wants_size` for `size != NULL`: the errno, the size and the buffer, for what
-- `pread` answers.
pub read_to_buffer : SmallFile → ReadOutcome → Bool → ℕ × Option ℕ × Option (List ℕ)
read_to_buffer file outcome wants_size =
    if file.is_open
    then (elim outcome [
      | got bytes ↦
          (file.err, (if wants_size then some (length bytes) else none), some (bytes ++ (0 ∷ [])))
      | failed errno ↦ (errno, none, none)
    ])
    else (file.err, none, none)
