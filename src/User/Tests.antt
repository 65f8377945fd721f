-- ===== src/User/Tests.antt =====
-- A user task at a concrete state: four bytes of code in frame 3, which page 3 shows, with the page
-- directory in frame 1 and its table in frame 2.
use aioncore.Base.{ℕ, ◌+◌, ◌<◌, ◌≡◌, refl, true, ◌==◌, if◌then◌else◌, [], ◌<◌, update}
use aioncore.Task.{Task, TaskState}
use aioncore.Sched.{Scheduler}
use aioncore.Pmm.{pmm_alloc_page, Pmm, Bytes}
use aioncore.Sched.Run.{zero_task, zero_scheduler}
use aioncore.Tasks.{Machine}
use aioncore.User.{byte_at, put_byte}

-- the first eight frames are taken
abbrev eight : Bytes
eight i = if i == 0 then 255 else 0

abbrev frames : Pmm
frames = record {
  frame_bitmap = eight;
  bitmap = true;
  total_frames = 20;
  free_frames = 12;
  reserved_frames = 8;
  initialized = true;
}

abbrev words : ℕ → ℕ
words a =
    if a == 4096
    then 0x2007
    else if a == 0x200C
    then 0x3003
    else if a == 0x3000
    then 0x0480CDFA
    else 0

-- the idle task, in frame 4, runs, and nothing waits
abbrev idle_runs : ℕ → Task
idle_runs =
    let z = zero_task in update (λ a. zero_task) 0x4000 (record z { state = TaskState.running })

abbrev scheduler : Scheduler
scheduler = let z = zero_scheduler in record z { current_task = 0x4000 }

abbrev before : Machine
before = record {
  kernel = record { tasks = idle_runs; sched = scheduler; idle_task = 0x4000; esp0 = 0 };
  mmu = record {
    pmm = frames;
    memory = words;
    spaces = λ pt. record { page_directory = 4096; pd_phys = 4096 };
    kernel_address_space = 4;
    cr3 = 4096;
    paging = true;
    flushed = [];
  };
  next_task_id = 1;
}

abbrev at : ℕ → ℕ
at k = 0x3000 + k

abbrev page : ℕ
page = (pmm_alloc_page frames).1

-- a byte in the middle of a word is replaced
put_byte_runs : put_byte words 0x3001 0x90 0x3000 ≡ 0x048090FA
unfolding put_byte byte_at
put_byte_runs = refl
