-- ===== src/Netfs/Client/Cat.antt =====
-- hw2-netfs: the command `cat` of a client against the thread of the server that serves it.
use mipt_kis_linux.Prelude.{
  ℕ, Bool, zero, suc, ◌+◌, ◌-◌, ◌<◌, ◌≤◌, ◌≡◌, refl, ap, subst, ◌∙◌, true, false, List, [], ◌++◌,
  some, arith, ◌==◌, length, take, drop, min, length-take, length-drop, drop-next, drop-past,
  ℕ_discrete,
}
use mipt_kis_linux.Rfs.Machine.{Mem, Message, size_mod, add_size}
use mipt_kis_linux.Rfs.Layout.{FsDescriptors}
use mipt_kis_linux.Rfs.Files.Content.{IsGeometry, IsFile, file_bytes, file_size, file_contents}
use mipt_kis_linux.Netfs.Socket.{Socket}
use mipt_kis_linux.Netfs.Socket.Pieces.{Delivers}
use mipt_kis_linux.Netfs.Protocol.{Unread}
use mipt_kis_linux.Netfs.Fields.{IsWord}
use mipt_kis_linux.Netfs.Server.{Served, after_request, serve_client}
use mipt_kis_linux.Netfs.Server.Answers.{Leads, serve_next_operation-contents}
use mipt_kis_linux.Netfs.Client.{
  value, receive_read, path_string, send_read, CatRun, after_read, cat_rounds,
}
use mipt_kis_linux.Netfs.Client.Reads.{receive_read-contents}

-- A run that prints a text and ends without an error.
pub record Prints (text : List ℕ) (run : CatRun) : Type 0 where
  pub output : run.output ≡ text
  pub ending : run.ending ≡ some (value tt)

module _ (unread : Unread) (fds : FsDescriptors) (malloc : ℕ → Bool) (m : Mem)
    (geo : IsGeometry fds m) (path : List ℕ) (b : ℕ) (cs : List ℕ)
    (leads : Leads fds m (path_string path) b) (file : IsFile fds m b cs)
    (named : IsWord (length (path_string path))) (pointer pointer' data_pointer : ℕ)
    (text : Message → List ℕ) (size : ℕ) (positive : 0 < size) (allocated : malloc size ≡ true)
    (no_wrap : file_size fds m b + size < size_mod) where
  -- What the two sides send from an offset of the file on, each in the stream that the other
  -- reads.
  abbrev client : (n total : ℕ) → Socket → CatRun
  client n total c = cat_rounds pointer' data_pointer path n size total c

  abbrev server : (k : ℕ) → Socket → List ℕ × Served
  server k s = serve_client pointer fds malloc k unread text s m

  cat_rounds-drop :
      (n k total : ℕ) (c s : Socket)
      → total ≤ file_size fds m b
      → file_size fds m b - total < n
      → file_size fds m b - total < k
      → Delivers (client n total c).sent s
      → Delivers (server k s).0 c
      → Prints (drop total (file_contents fds m b cs)) (client n total c)
  unfolding cat_rounds serve_client after_request send_read
  cat_rounds-drop zero k total c s start rounds requests d d' = absurd (omega arith)
  cat_rounds-drop (suc n) zero total c s start rounds requests d d' = absurd (omega arith)
  cat_rounds-drop (suc n) (suc k) total c s start rounds requests d d' =
      let contents = file_contents fds m b cs in
      let part = take size (drop total contents) in
      let whole : length contents ≡ file_size fds m b =
        omega (arith, file.room, length-take (file_size fds m b) (file_bytes fds m b cs)) in
      let count : length part ≡ min size (file_size fds m b - total) =
        omega (arith, length-take size (drop total contents), length-drop total contents, whole) in
      let next : List ℕ → Socket → CatRun =
        λ bytes c'. client n (add_size total (length bytes)) c' in
      let (s', e, ds) =
        serve_next_operation-contents unread fds malloc m geo (path_string path) b cs leads file
          pointer pointer' data_pointer text total size (named, omega arith, omega arith)
          (after_read (receive_read c) next).sent s allocated d start (omega arith) in
      let answers =
        ap (λ served. (after_request served (serve_client pointer fds malloc k unread text)).0) e in
      let (c', e', dc) =
        receive_read-contents pointer part (server k s').0 c (omega arith)
          (subst (λ bytes. Delivers bytes c) answers d') in
      elim (ℕ_discrete (length part) 0) [
        | yes none_left ↦
            let ended : (length part == 0) ≡ true = ground arith in
            let nothing : drop total contents ≡ [] = drop-past total contents (omega arith) in
            rw (e', after_read, ended, nothing) record { output = refl; ending = refl }
        | no some_left ↦
            let goes_on : (length part == 0) ≡ false = ground arith in
            let moved : add_size total (length part) ≡ total + length part = omega arith in
            let asked : (after_read (receive_read c) next).sent
                ≡ (client n (total + length part) c').sent =
              rw (e', after_read, goes_on, moved) refl in
            let rest =
              cat_rounds-drop n k (total + length part) c' s' (omega arith) (omega arith)
                (omega arith) (subst (λ bytes. Delivers bytes s') asked ds) dc in
            rw (e', after_read, goes_on, moved)
              record {
                output = ap (λ bytes. part ++ bytes) rest.output ∙ drop-next size total contents;
                ending = rest.ending;
              }
      ]

  -- A client that prints a file whose chain of blocks has room for its size, by a path that leads
  -- to it, with a buffer of a byte at least that the server can allocate too, where path, size and
  -- buffer fit in their fields together, and a server to which all its requests arrive and whose
  -- answers all arrive, each in any pieces, while nothing else is stored: within one round and one
  -- request more than the file has bytes, the client prints the contents of the file and ends
  -- without an error.
  pub cat_rounds-serve_client :
      (n k : ℕ) (c s : Socket)
      → file_size fds m b < n
      → file_size fds m b < k
      → Delivers (cat_rounds pointer' data_pointer path n size 0 c).sent s
      → Delivers (serve_client pointer fds malloc k unread text s m).0 c
      → Prints (file_contents fds m b cs) (cat_rounds pointer' data_pointer path n size 0 c)
  cat_rounds-serve_client n k c s rounds requests d d' =
      cat_rounds-drop n k 0 c s (omega arith) (omega arith) (omega arith) d d'
