-- ===== src/Membased/Server.antt =====
-- xposed_service.cpp, lines 151-225: the looper, as one action at a time.
use xposed.Prelude.{
  ℕ, none, some, pos, minus_one, length, drop, ◌++◌, ltb, signed32, ◌*◌, if◌then◌else◌,
}
use xposed.FileSystem.{done, fails, Stream, ReadReport, FileSystem}
use xposed.Membased.Shared.{
  state_idle, state_server_response, Action, op_none, op_access_file, op_stat_file, op_read_file,
  AccessFileData, StatFileData, ReadFileData, access_file, stat_file, read_file, MemBasedState,
  Layout, access_member, stat_member, read_member,
}

-- `sizeof(ReadFileData::content)`
abbrev pub content_size : ℕ
content_size = 32 * 1024

-- `fread` writes over the front of the buffer.
unfoldable pub serve_fread : ReadFileData → ReadReport → MemBasedState → MemBasedState
serve_fread d r sh = record sh {
  member = read_file (record d {
    bytes_read = length r.bytes;
    eof = r.feof;
    content = r.bytes ++ drop (length r.bytes) d.content;
  });
  error = r.ferror;
}

-- The seek is made only at an offset above 0; where it fails, `ferror` is the error reported.
unfoldable pub serve_stream : ReadFileData → Stream → MemBasedState → MemBasedState
unfolding serve_fread
serve_stream d f sh = elim (if◌then◌else◌ (ltb 0 d.offset) (f.seek d.offset) none) [
  | some e ↦ record sh { member = read_file d; error = e }
  | none ↦ serve_fread d (f.read d.offset content_size) sh
]

module _ (fs : FileSystem) where
  unfoldable pub serve_access : AccessFileData → MemBasedState → MemBasedState
  serve_access d sh = elim (fs.access d.path d.mode) [
    | done _ ↦ record sh { member = access_file (record d { result = pos 0 }) }
    | fails e ↦ record sh { member = access_file (record d { result = minus_one }); error = e }
  ]

  unfoldable pub serve_stat : StatFileData → MemBasedState → MemBasedState
  serve_stat d sh = elim (fs.stat d.path) [
    | done st ↦ record sh { member = stat_file (record d { st = st; result = pos 0 }) }
    | fails e ↦ record sh { member = stat_file (record d { result = minus_one }); error = e }
  ]

  unfoldable pub serve_read : ReadFileData → MemBasedState → MemBasedState
  unfolding serve_stream
  serve_read d sh = elim (fs.stat d.path) [
    | fails e ↦ record sh { error = e }
    | done st ↦
        let d' : ReadFileData = record d { total_size = signed32 st.st_size } in
        elim (fs.fopen d.path) [
          | fails e ↦ record sh { member = read_file d'; error = e }
          | done f ↦ serve_stream d' f sh
        ]
  ]

module _ (l : Layout) (fs : FileSystem) where
  -- The `switch` on the action.
  unfoldable pub serve : Action → MemBasedState → MemBasedState
  unfolding serve_access serve_stat serve_read
  serve op_access_file sh = serve_access fs (access_member l sh.member) sh
  serve op_stat_file sh = serve_stat fs (stat_member l sh.member) sh
  serve op_read_file sh = serve_read fs (read_member l sh.member) sh
  serve op_none sh = sh

  -- One round of the loop, from a pending action to the response.
  unfoldable pub server_turn : MemBasedState → MemBasedState
  unfolding serve
  server_turn sh = record (serve sh.action sh) { state = state_server_response }

-- The first thing that the looper does.
unfoldable pub start_looper : MemBasedState → MemBasedState
start_looper sh = record sh { state = state_idle }
