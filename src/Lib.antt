-- ===== src/Lib.antt =====
-- Verification of the core of Claude Squad IDE, a desktop program that runs coding assistants in
-- terminals, each in a git worktree of its own.
--
-- Parts of the program and files that model them:
--   Pty/Monitor     pty/monitor.go: the ring buffer behind each terminal, and what it is polled for.
--   Pty/Session     pty/manager.go, type Session: subscribers of a terminal and their channels.
--   Pty/Manager     pty/manager.go, type Manager: the map of running terminals.
--   Pty/WebSocket   pty/websocket.go, pty/registry.go: how a client finds a terminal and is fed.
--   Session/Instance  session/instance.go: an assistant's life: start, pause, resume, kill.
--   Session/Storage   session/storage.go: how instances are stored and read back.
--   Session/Git/Names     session/git/util.go, session/git/worktree.go: names of branches.
--   Session/Git/Shell     session/git/executor.go: command lines for a remote host.
--   Session/Git/Retry     session/git/executor_timeout.go: commands under a time limit.
--   Session/Git/DiffFiles session/git/diff_files.go: the changed files of a worktree.
--   Session/Git/Command   session/git/executor.go: how git is run, as a monad with the world in it.
--   Session/Git/Branches  session/git/worktree_git.go: default branch, branch search, commit, push.
--   Session/Git/Worktrees session/git/worktree_ops.go: submodules of a worktree.
--   Session/Git/Diff      session/git/diff.go: the diff of a worktree and its counts.
--   Session/Git/Requests  session/instance.go: prompts, previews, statistics, retries.
--   Session/Git/Setup     session/git/worktree_ops.go: set-up and cleanup of a worktree.
--   Ssh/Hosts       ssh/hosts.go: the saved hosts.
--   Ssh/HostManager ssh/host_manager.go: shared connections, their holders and idle timers.
--   Ssh/Reconnect   ssh/host_manager.go: the loop after a connection is lost.
--   Ssh/Session     ssh/session.go: a remote terminal.
--   Ssh/ProcessManager ssh/process_manager.go: the remote terminals of a host, and of all hosts.
--   Ssh/Client      ssh/client.go: the connection, its keepalive and the file known_hosts.
--   App/Sessions    app/bindings.go: the open sessions, and what the window asks of them.
--   App/Hosts       app/bindings.go: the hosts that the window creates and changes.
--   App/Index/Search  app/indexer_treesitter.go: search results within a budget of tokens.
--   App/Index/Changes app/indexer_git.go: the hunks of a diff and the symbols that they touch.
--   App/Index/Build   app/indexer_treesitter.go: the incremental build of the index.
--   Config, Config/State  config/config.go, config/state.go: the configuration and the stored state.
--   App/Memory      app/memory.go: the limits that follow from the memory of the machine.
--   App/Files       app/bindings.go: the files of a worktree, listed, read and changed.
--   App/Ctags       app/indexer.go: the index that ctags makes, and the loop that builds it.
--   App/Mcp         app/mcp_server.go: the server that the assistants ask, its requests and tools.
--   App/CallGraph   app/indexer_callgraph.go: who calls whom; dead code and blast radius below it.
-- An instance uses a terminal by its identifier and a worktree by its record; the storage keeps the
-- data of instances; the window's sessions use all three, and take a host's connection as given. The
-- call graph and the search stand by themselves.
-- Each operation of the source is a function of the same name, in snake case, from the state to the
-- result and the new state.
--
-- How things correspond: a Go string or byte slice is `Text`, the list of its bytes; a map with
-- string keys is an association list `Assoc`, in the order in which a `range` meets it; a nil
-- pointer or a missing error is `none`. A Go channel is a queue with its capacity. A panic is the
-- result `none` of a session's operation. What the program asks of the operating system, of git and
-- of libraries is an argument of the definitions: the environment record of Session/Instance/World
-- for an instance, and single functions elsewhere (the hash, the start of a process, JSON).
-- Arithmetic on float64 is the record Floats.
-- The white space that texts are trimmed of and cut at is that of ASCII; Go knows more of Unicode. A nil
-- worktree where Resume needs one, which is a nil dereference in the source, is an error.
-- Fuel: the sorting loop runs for the length of its slice, and the search of the blast radius for the
-- `rounds` of a tree of its depth and width, since a symbol is followed to the limit at most.
-- The locks of the source make its operations atomic, so runs are sequences of whole operations.
--
-- Not modelled: the removal of the folders of all worktrees; the parser of the index, which is
-- tree-sitter, with its table of languages, and its ranking, which is bleve; centrality and PageRank
-- of the call graph, whose sums are of float64; the front end, logging, the search for the claude
-- command, shells, and the transport under SSH, which are input and output, or pass requests on.
pub mod Base
pub mod App
pub mod Config
pub mod Pty
pub mod Session
pub mod Ssh
